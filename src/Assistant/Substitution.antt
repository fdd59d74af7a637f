-- ===== src/Assistant/Substitution.antt =====
-- backend/apps/ai_assistant/services.py, `pattern.sub` over the alternatives of a table, longest first:
-- from the left, the first alternative that stands at a position is replaced and passed over.
use rssi_as_a_service.Prelude.{
  ℕ, zero, suc, ◌-◌, ◌≡◌, refl, ap, sym, ◌∙◌, Bool, true, false, List, [], ◌∷◌, ◌++◌, Option, none,
  some, if◌then◌else◌, length, leb, sort_by, arith, Bool-cases, Option-cases, inl, inr, Memᴰ,
  All-mem, mem-All, sort_by-mem, sort_by-All,
}
use rssi_as_a_service.Assistant.Text.{Text, starts_with}

-- What is looked for, and what replaces it.
abbrev pub Table : Type 0
Table = List (Text × Text)

-- `sorted(…, key=len, reverse=True)`, which keeps the order of equal lengths.
abbrev pub longer : Text × Text → Text × Text → Bool
longer a b = leb (length b.0) (length a.0)

unfoldable pub alternatives : Table → Table
alternatives table = sort_by longer table

unfoldable pub find_match : Table → Text → Option (Text × Text)
find_match [] s = none
find_match (row ∷ rows) s =
    let rest = find_match rows s in if starts_with row.0 s then some row else rest

-- `skip` counts the code points of the last match that are still to be passed over.
unfoldable pub substitute : Table → ℕ → Text → Text
substitute rows skip [] = []
substitute rows (suc skip) (c ∷ s) = substitute rows skip s
substitute rows zero (c ∷ s) = elim (find_match rows (c ∷ s)) [
  | none ↦ c ∷ substitute rows 0 s
  | some row ↦ row.1 ++ substitute rows (length row.0 - 1) s
]

pub find_match-some :
    (rows : Table) (s : Text) (row : Text × Text)
    → find_match rows s ≡ some row
    → Memᴰ row rows × (starts_with row.0 s ≡ true)
unfolding find_match
find_match-some [] s row h = cc h
find_match-some (r ∷ rows) s row h = elim (Bool-cases (starts_with r.0 s)) [
  | inl here ↦
      let same : r ≡ row = ground (arith, h, here) in
      (Memᴰ.head (sym same), ap (λ (x : Text × Text). starts_with x.0 s) (sym same) ∙ here)
  | inr there ↦
      let (m, e) = find_match-some rows s row (ground (arith, h, there)) in (Memᴰ.tail m, e)
]

pub find_match-none :
    (rows : Table) (s : Text) (row : Text × Text)
    → find_match rows s ≡ none
    → Memᴰ row rows
    → starts_with row.0 s ≡ false
unfolding find_match
find_match-none [] s row h m = elim m [ ]
find_match-none (r ∷ rows) s row h (Memᴰ.head e) = rw e (ground (arith, h))
find_match-none (r ∷ rows) s row h (Memᴰ.tail m) = find_match-none rows s row (ground (arith, h)) m

-- Where a row of the table stands at a position, some row is found.
pub find_match-found :
    (rows : Table) (s : Text) (row : Text × Text)
    → Memᴰ row rows
    → starts_with row.0 s ≡ true
    → (found : Text × Text) × (find_match rows s ≡ some found)
find_match-found rows s row m here = elim (Option-cases (find_match rows s)) [
  | inl missing ↦ cc (find_match-none rows s row missing m, here)
  | inr found ↦ found
]

-- Past a match, the substitution goes on with what follows it.
pub substitute-skip :
    (rows : Table) (v rest : Text) → substitute rows (length v) (v ++ rest) ≡ substitute rows 0 rest
unfolding substitute
substitute-skip rows [] rest = refl
substitute-skip rows (c ∷ v) rest = substitute-skip rows v rest

-- One round, without a match and with one.
pub substitute-none :
    (rows : Table) (c : ℕ) (s : Text)
    → find_match rows (c ∷ s) ≡ none
    → substitute rows 0 (c ∷ s) ≡ c ∷ substitute rows 0 s
unfolding substitute
substitute-none rows c s missing = rw (missing, substitute) refl

pub substitute-some :
    (rows : Table) (c : ℕ) (s : Text) (row : Text × Text)
    → find_match rows (c ∷ s) ≡ some row
    → substitute rows 0 (c ∷ s) ≡ row.1 ++ substitute rows (length row.0 - 1) s
unfolding substitute
substitute-some rows c s row found = rw (found, substitute) refl

pub substitute-pass :
    (rows : Table) (skip c : ℕ) (s : Text)
    → substitute rows (suc skip) (c ∷ s) ≡ substitute rows skip s
unfolding substitute
substitute-pass rows skip c s = refl

-- The empty table replaces nothing.
pub substitute-empty : (s : Text) → substitute [] 0 s ≡ s
unfolding substitute find_match
substitute-empty [] = refl
substitute-empty (c ∷ s) = ap (λ (t : Text). c ∷ t) (substitute-empty s)

-- The order of the alternatives changes none of them.
pub mem-alternatives :
    (rows : Table) (row : Text × Text) → Memᴰ row (alternatives rows) → Memᴰ row rows
unfolding alternatives
mem-alternatives rows row m =
    All-mem (λ x. Memᴰ x rows) (sort_by longer rows)
      (sort_by-All longer (λ x. Memᴰ x rows) rows (mem-All (λ x. Memᴰ x rows) rows (λ x k. k))) m

pub alternatives-mem :
    (rows : Table) (row : Text × Text) → Memᴰ row rows → Memᴰ row (alternatives rows)
unfolding alternatives
alternatives-mem rows row m = sort_by-mem longer rows m

pub substitute-nil : (rows : Table) (skip : ℕ) → substitute rows skip [] ≡ []
unfolding substitute
substitute-nil rows skip = refl
