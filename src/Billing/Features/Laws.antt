-- ===== src/Billing/Features/Laws.antt =====
-- What `sanitize` promises: only known keys, the same set each time, whatever the order and the
-- repetitions of what was typed in.
use rssi_as_a_service.Prelude.{
  ◌≡◌, refl, sym, String, Bool, true, ◌&&◌, List, [], ◌∷◌, keep, contains, str_eq, eq_iff, arith,
  Bool-cases, inl, inr, subst,
}
use rssi_as_a_service.Billing.Features.{registry, is_known, sanitize}

pub contains-keep :
    (p : String → Bool) (keys : List String) (k : String)
    → contains (keep p keys) k ≡ (contains keys k && p k)
unfolding contains keep
contains-keep p [] k = refl
contains-keep p (x ∷ keys) k = elim (Bool-cases (str_eq x k)) [
  | inl same ↦
      let e : x ≡ k = (eq_iff x k).0 same in
      subst (λ y. contains (keep p (y ∷ keys)) k ≡ (contains (y ∷ keys) k && p k)) (sym e)
        (ground (arith, contains-keep p keys k, eq_iff k k))
  | inr other ↦ ground (arith, contains-keep p keys k)
]

keep-congr :
    (p q : String → Bool) (keys : List String)
    → ((k : String) → contains keys k ≡ true → p k ≡ q k)
    → keep p keys ≡ keep q keys
unfolding keep contains
keep-congr p q [] h = refl
keep-congr p q (x ∷ keys) h =
    rw (h x (ground (arith, eq_iff x x)), keep-congr p q keys (λ k m. h k (ground (arith, m))))

-- A key is kept exactly where it was provided and is known.
pub contains-sanitize :
    (keys : List String) (k : String) → contains (sanitize keys) k ≡ (is_known k && contains keys k)
unfolding sanitize is_known
contains-sanitize keys k = contains-keep (contains keys) registry k

-- Two lists with the same known keys are sanitized alike: neither order nor repetition counts.
pub sanitize-ext :
    (xs ys : List String)
    → ((k : String) → is_known k ≡ true → contains xs k ≡ contains ys k)
    → sanitize xs ≡ sanitize ys
unfolding sanitize is_known
sanitize-ext xs ys h = keep-congr (contains xs) (contains ys) registry h

-- Sanitizing twice is sanitizing once.
pub sanitize-sanitize : (keys : List String) → sanitize (sanitize keys) ≡ sanitize keys
sanitize-sanitize keys =
    sanitize-ext (sanitize keys) keys (λ k known. rw (contains-sanitize keys k, known))
