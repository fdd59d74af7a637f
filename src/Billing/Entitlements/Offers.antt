-- ===== src/Billing/Entitlements/Offers.antt =====
-- `cheapest_plan_with`: what the client who lacks a feature is pointed to.
use rssi_as_a_service.Prelude.{
  ◌≤◌, ◌≡◌, refl, sym, subst, Bool, true, false, not, List, [], ◌∷◌, Memᴰ, none, some, String,
  arith, keep, sort_by, All-mem, mem-keep, keep-mem, mem-All, sort_by-mem, sort_by-All,
  sort_by-IsSorted, keep-IsSorted, IsSorted, first,
}
use rssi_as_a_service.Billing.Model.{Plan, is_published, plan_has_feature}
use rssi_as_a_service.Billing.Entitlements.{
  price_le, published_with, first_of_either, cheapest_plan_with,
}

-- A published offer that includes the feature.
abbrev pub Offers : String → Plan → Type 0
Offers key p = (is_published p.status ≡ true) × (plan_has_feature p key ≡ true)

price_le_total : (p q : Plan) → price_le p q ≡ false → price_le q p ≡ true
price_le_total p q h = ground arith

price_le_trans : (p q r : Plan) → price_le p q ≡ true → price_le q r ≡ true → price_le p r ≡ true
price_le_trans p q r h k = ground arith

price_le-price : (p q : Plan) → price_le p q ≡ true → p.price_monthly ≤ q.price_monthly
price_le-price p q h = ground arith

published-Offers :
    (key : String) (plans : List Plan) (p : Plan)
    → Memᴰ p (published_with key plans)
    → Memᴰ p plans × Offers key p
unfolding published_with
published-Offers key plans p m =
    let published = keep (λ q. is_published q.status) plans in
    let (sorted, has) = mem-keep (λ q. plan_has_feature q key) (sort_by price_le published) m in
    let found =
      All-mem (λ q. Memᴰ q plans × (is_published q.status ≡ true)) (sort_by price_le published)
        (sort_by-All price_le (λ q. Memᴰ q plans × (is_published q.status ≡ true)) published
          (mem-All (λ q. Memᴰ q plans × (is_published q.status ≡ true)) published
            (λ q k. mem-keep (λ r. is_published r.status) plans k)))
        sorted in
    (found.0, (found.1, has))

Offers-published :
    (key : String) (plans : List Plan) (p : Plan)
    → Memᴰ p plans
    → Offers key p
    → Memᴰ p (published_with key plans)
unfolding published_with
Offers-published key plans p m (shown, has) =
    keep-mem (λ q. plan_has_feature q key) _
      (sort_by-mem price_le (keep (λ q. is_published q.status) plans)
        (keep-mem (λ q. is_published q.status) plans m shown))
      has

published-IsSorted :
    (key : String) (plans : List Plan) → IsSorted price_le (published_with key plans)
unfolding published_with
published-IsSorted key plans =
    keep-IsSorted price_le (λ q. plan_has_feature q key) _
      (sort_by-IsSorted price_le price_le_total price_le_trans
        (keep (λ q. is_published q.status) plans))

abbrev pub is_priced : Plan → Bool
is_priced p = not p.is_quote_only

-- No offer with a price that offers the feature is cheaper, or has a price where this one has none.
abbrev pub IsCheapest : List Plan → Plan → Type 0
IsCheapest published p =
    (q : Plan)
    → Memᴰ q published
    → is_priced q ≡ true
    → (is_priced p ≡ true) × (p.price_monthly ≤ q.price_monthly)

first-mem : (xs : List Plan) (p : Plan) → first xs ≡ some p → Memᴰ p xs
first-mem [] p h = cc
first-mem (x ∷ xs) p h = Memᴰ.head (ground arith)

head-IsCheapest :
    (x q : Plan) (rest : List Plan)
    → IsSorted price_le (x ∷ rest)
    → Memᴰ q (x ∷ rest)
    → x.price_monthly ≤ q.price_monthly
head-IsCheapest x q rest s (Memᴰ.head e) = rw e (omega arith)
head-IsCheapest x q rest s (Memᴰ.tail m) =
    price_le-price x q (All-mem (λ y. price_le x y ≡ true) rest s.0 m)

either-IsCheapest :
    (published priced : List Plan) (p : Plan)
    → keep is_priced published ≡ priced
    → IsSorted price_le priced
    → first_of_either priced published ≡ some p
    → Memᴰ p published × IsCheapest published p
either-IsCheapest published [] p e s h = (
  first-mem published p h,
  λ q m priced. elim (subst (λ l. Memᴰ q l) e (keep-mem is_priced published m priced)) [ ],
)
either-IsCheapest published (x ∷ rest) p e s h =
    let same : x ≡ p = ground arith in
    let here : Memᴰ x (x ∷ rest) = Memᴰ.head refl in
    let mine = mem-keep is_priced published (subst (λ l. Memᴰ x l) (sym e) here) in
    subst (λ y. Memᴰ y published × IsCheapest published y) same
      (
        mine.0,
        λ q m priced. (
          mine.1,
          head-IsCheapest x q rest s
              (subst (λ l. Memᴰ q l) e (keep-mem is_priced published m priced)),
        ),
      )

-- The offer proposed to a client is in the catalogue, published, and includes the feature; and where
-- some published offer with a price includes it, the one proposed has a price too, and none is
-- cheaper. So an offer on quotation is proposed only where nothing else would do.
pub cheapest_plan_with-IsCheapest :
    (key : String) (plans : List Plan) (p : Plan)
    → cheapest_plan_with key plans ≡ some p
    → Memᴰ p plans
      × Offers key p
      × ((q : Plan)
          → Memᴰ q plans
          → Offers key q
          → is_priced q ≡ true
          → (is_priced p ≡ true) × (p.price_monthly ≤ q.price_monthly))
unfolding cheapest_plan_with
cheapest_plan_with-IsCheapest key plans p h =
    let published = published_with key plans in
    let (mine, best) =
      either-IsCheapest published (keep is_priced published) p refl
        (keep-IsSorted price_le is_priced published (published-IsSorted key plans)) h in
    let (found, offers) = published-Offers key plans p mine in
    (found, offers, λ q m o priced. best q (Offers-published key plans q m o) priced)

either-none :
    (priced published : List Plan) → first_of_either priced published ≡ none → published ≡ []
either-none [] [] h = refl
either-none [] (p ∷ published) h = cc
either-none (p ∷ priced) published h = cc

-- Nothing is proposed only where no published offer includes the feature.
pub cheapest_plan_with-none :
    (key : String) (plans : List Plan)
    → cheapest_plan_with key plans ≡ none
    → (p : Plan) → Memᴰ p plans
    → ¬ Offers key p
unfolding cheapest_plan_with
cheapest_plan_with-none key plans h p m o =
    elim (subst (λ l. Memᴰ p l) (either-none _ (published_with key plans) h)
      (Offers-published key plans p m o)) [ ]
