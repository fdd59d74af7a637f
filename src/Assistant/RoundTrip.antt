-- ===== src/Assistant/RoundTrip.antt =====
-- backend/apps/ai_assistant/services.py: a text that was pseudonymised and comes back as it left is
-- rehydrated into itself.
use rssi_as_a_service.Prelude.{
  ℕ, zero, suc, ◌-◌, ◌≡◌, ◌≢◌, refl, ap, sym, ◌∙◌, subst, true, [], ◌∷◌, ◌++◌, some, length, arith,
  Option-cases, inl, inr, Memᴰ,
}
use rssi_as_a_service.Assistant.Text.{Text, IsFree, starts_with, starts_with-append, rest_of}
use rssi_as_a_service.Assistant.Placeholder.{Placeholder, opening, render, body, render_unique}
use rssi_as_a_service.Assistant.Substitution.{
  Table, find_match, substitute, find_match-some, find_match-found, substitute-skip,
  substitute-pass, substitute-none, substitute-some,
}

unfoldable pub drop : ℕ → Text → Text
drop zero s = s
drop (suc n) [] = []
drop (suc n) (c ∷ s) = drop n s

drop-length : (v rest : Text) → drop (length v) (v ++ rest) ≡ rest
unfolding drop
drop-length [] rest = refl
drop-length (c ∷ v) rest = drop-length v rest

pub drop-zero : (s : Text) → drop 0 s ≡ s
unfolding drop
drop-zero s = refl

drop-pass : (n c : ℕ) (s : Text) → drop (suc n) (c ∷ s) ≡ drop n s
unfolding drop
drop-pass n c s = refl

-- What follows a match, put after it again.
after-match :
    (v : Text) (c : ℕ) (s rest : Text)
    → v ≢ []
    → c ∷ s ≡ v ++ rest
    → v ++ drop (length v - 1) s ≡ c ∷ s
after-match [] c s rest filled whole = absurd (filled refl)
after-match (x ∷ v) c s rest filled whole =
    let tail : s ≡ v ++ rest = ground (arith, whole) in
    let size : length (x ∷ v) - 1 ≡ length v = omega arith in
    let left : drop (length (x ∷ v) - 1) s ≡ rest =
      ap (λ k. drop k s) size ∙ (ap (drop (length v)) tail ∙ drop-length v rest) in
    ap (λ (t : Text). (x ∷ v) ++ t) left ∙ sym whole

-- A token opens with a brace.
no_token :
    (q : Placeholder) (c : ℕ) (s : Text) → c ≢ opening → starts_with (render q) (c ∷ s) ≢ true
unfolding render starts_with
no_token q c s plain stands = ground (arith, stands, plain)

-- Each row of the second table undoes one of the first.
pub record Undoes (forth back : Table) : Type 0 where
  pub filled : (a : Text × Text) → Memᴰ a forth → a.0 ≢ []
  pub is_token : (a : Text × Text) → Memᴰ a forth → (p : Placeholder) × (a.1 ≡ render p)
  pub reads_token : (b : Text × Text) → Memᴰ b back → (q : Placeholder) × (b.0 ≡ render q)
  pub returns : (a b : Text × Text) → Memᴰ a forth → Memᴰ b back → a.1 ≡ b.0 → a.0 ≡ b.1
  pub covers : (a : Text × Text) → Memᴰ a forth → (b : Text × Text) × Memᴰ b back × (b.0 ≡ a.1)

module _ (forth back : Table) (h : Undoes forth back) where
  -- The table back finds the token of a row, whatever follows, and no other.
  finds :
      (a : Text × Text) (x : Text)
      → Memᴰ a forth
      → (b : Text × Text) × (find_match back (a.1 ++ x) ≡ some b) × (b.0 ≡ a.1) × (b.1 ≡ a.0)
  finds a x m =
      let (c, mc, ec) = h.covers a m in
      let stands : starts_with c.0 (a.1 ++ x) ≡ true =
        subst (λ t. starts_with t (a.1 ++ x) ≡ true) (sym ec) (starts_with-append a.1 x) in
      let (b, found) = find_match-found back (a.1 ++ x) c mc stands in
      let (mb, here) = find_match-some back (a.1 ++ x) b found in
      let (p, ep) = h.is_token a m in
      let (q, eq) = h.reads_token b mb in
      let same : q ≡ p = render_unique q p x (
        subst (λ t. starts_with t (render p ++ x) ≡ true) eq
          (subst (λ t. starts_with b.0 (t ++ x) ≡ true) ep here)) in
      let token : b.0 ≡ a.1 = eq ∙ (ap render same ∙ sym ep) in
      (b, found, token, sym (h.returns a b m mb (sym token)))

  -- A token is replaced by the value that it stands for.
  substitute-token :
      (a : Text × Text) (x : Text)
      → Memᴰ a forth
      → substitute back 0 (a.1 ++ x) ≡ a.0 ++ substitute back 0 x
  substitute-token a x m =
      let (p, ep) = h.is_token a m in
      let (b, found, token, value) = finds a x m in
      let tail = opening ∷ (body p ++ (b'}' ∷ b'}' ∷ [])) in
      let spelt : a.1 ≡ opening ∷ tail = unfold render in ep in
      let size : length b.0 - 1 ≡ length tail =
        ap (λ (t : Text). length t - 1) (token ∙ spelt) ∙ omega arith in
      let found' : find_match back (opening ∷ (tail ++ x)) ≡ some b =
        subst (λ t. find_match back (t ++ x) ≡ some b) spelt found in
      let step : substitute back 0 (opening ∷ (tail ++ x))
          ≡ b.1 ++ substitute back (length b.0 - 1) (tail ++ x) =
        substitute-some back opening (tail ++ x) b found' in
      ap (λ t. substitute back 0 (t ++ x)) spelt
      ∙ (step
          ∙ (ap (λ k. b.1 ++ substitute back k (tail ++ x)) size
              ∙ (ap (λ (t : Text). b.1 ++ t) (substitute-skip back tail x)
                  ∙ ap (λ (t : Text). t ++ substitute back 0 x) value)))

  -- A code point that opens no token stays.
  substitute-plain :
      (c : ℕ) (s : Text) → c ≢ opening → substitute back 0 (c ∷ s) ≡ c ∷ substitute back 0 s
  substitute-plain c s plain = elim (Option-cases (find_match back (c ∷ s))) [
    | inl missing ↦ substitute-none back c s missing
    | inr (b, found) ↦
        let (m, here) = find_match-some back (c ∷ s) b found in
        let (q, e) = h.reads_token b m in
        let stands : starts_with (render q) (c ∷ s) ≡ true =
          subst (λ t. starts_with t (c ∷ s) ≡ true) e here in
        absurd (no_token q c s plain stands)
  ]

  pub substitute-back :
      (text : Text) (skip : ℕ)
      → IsFree opening text
      → substitute back 0 (substitute forth skip text) ≡ drop skip text
  substitute-back [] zero free = unfold substitute drop in refl
  substitute-back [] (suc skip) free = unfold substitute drop in refl
  substitute-back (c ∷ s) (suc skip) free =
      ap (substitute back 0) (substitute-pass forth skip c s)
      ∙ (substitute-back s skip free.1 ∙ sym (drop-pass skip c s))
  substitute-back (c ∷ s) zero free = elim (Option-cases (find_match forth (c ∷ s))) [
    | inl missing ↦
        let out : substitute forth 0 (c ∷ s) ≡ c ∷ substitute forth 0 s =
          substitute-none forth c s missing in
        ap (substitute back 0) out
        ∙ (substitute-plain c (substitute forth 0 s) free.0
            ∙ (ap (λ (t : Text). c ∷ t) (substitute-back s 0 free.1 ∙ drop-zero s)
                ∙ sym (drop-zero (c ∷ s))))
    | inr (a, found) ↦
        let (m, here) = find_match-some forth (c ∷ s) a found in
        let (rest, whole) = rest_of a.0 (c ∷ s) here in
        let out : substitute forth 0 (c ∷ s) ≡ a.1 ++ substitute forth (length a.0 - 1) s =
          substitute-some forth c s a found in
        ap (substitute back 0) out
        ∙ (substitute-token a (substitute forth (length a.0 - 1) s) m
            ∙ (ap (λ (t : Text). a.0 ++ t) (substitute-back s (length a.0 - 1) free.1)
                ∙ (after-match a.0 c s rest (h.filled a m) whole ∙ sym (drop-zero (c ∷ s)))))
  ]
