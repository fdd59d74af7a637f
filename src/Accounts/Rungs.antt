-- ===== src/Accounts/Rungs.antt =====
-- backend/apps/accounts/services.py: which rungs of the ladder of lockouts attempts on one account
-- reach, when each one waits for its answer.
use rssi_as_a_service.Prelude.{
  ℕ, suc, ◌+◌, ◌*◌, ◌≤◌, ◌≡◌, refl, ◌∙◌, ap, String, true, false, some, ltb, leb, str_eq, arith, ok,
  get_or, Bool-cases, inl, inr, ◌⊎◌,
}
use rssi_as_a_service.Accounts.Lockout.{
  account, login_fail, second, Cache, CacheLaws, lockout_seconds_for, check_not_locked_out,
  count_failure, record_failed_attempt,
}
use rssi_as_a_service.Accounts.Window.{
  window, earliest, IsFresh, Holds, Counting, Attempts, none_yet, one_more, passes-unlocked,
  attempt-get, count-present, lock-IsLocked, attempt-absent,
}

-- The lockout of the next failure, up to the eleventh, and how far it puts the one after.
next_rung :
    (n : ℕ)
    → 4 ≤ n
    → n ≤ 10
    → (d : ℕ) × (lockout_seconds_for (suc n) ≡ some d)
      × (earliest (suc n) ≤ earliest n + d * second)
unfolding lockout_seconds_for
next_rung n low high = elim (Bool-cases (leb n 8)) [
  | inl six ↦ (60, ground (arith, six, low), ground (arith, six, low))
  | inr ten ↦ (300, ground (arith, ten, high), ground (arith, ten, high))
]

module _ {S : Type 0} (cache : Cache S) (laws : CacheLaws cache) (hash : String → String)
    (email : String) (named : str_eq email "" ≡ false) where
  -- The fifth failure to the eleventh: it locks.
  attempt-locks :
      (address : String) (now n start : ℕ) (s : S)
      → 4 ≤ n
      → n ≤ 10
      → start + earliest n ≤ now
      → (count_failure cache hash account email now s).0 ≡ suc n
      → Holds cache hash email
          (suc n)
          start
          now
          (record_failed_attempt cache hash email address now s)
      → Counting cache hash email now (record_failed_attempt cache hash email address now s)
  attempt-locks address now n start s low high after number holds =
      let (d, rung, further) = next_rung n low high in
      let counted = count_failure cache hash account email now s in
      let rung' : lockout_seconds_for counted.0 ≡ some d = ap lockout_seconds_for number ∙ rung in
      let locks = lock-IsLocked cache hash email laws named now counted.0 d counted.1 rung' in
      record {
        failures = suc n;
        start = start;
        until = now + d * second;
        begun = omega (arith, after);
        bounded = omega (arith, high);
        holds = holds;
        locked = inr (λ t later.
            (attempt-get cache hash email laws named address now t s).1 ∙ locks t later);
        spaced = omega (arith, after, further);
      }

  -- Where the counter lives, the next failure is one more, and past the fourth it locks.
  attempt-present :
      (address : String) (now last : ℕ) (s : S) (c : Counting cache hash email last s)
      → last ≤ now
      → check_not_locked_out cache hash email address now s ≡ ok tt
      → ltb now (c.start + window) ≡ true
      → Counting cache hash email now (record_failed_attempt cache hash email address now s)
  attempt-present address now last s c from passed early =
      let n = c.failures in
      let (number, holds) =
        count-present cache hash email laws named now last n c.start s c.holds from early in
      let keeps = attempt-get cache hash email laws named address now in
      let holds' : Holds cache hash email (suc n) c.start now
          (record_failed_attempt cache hash email address now s) =
        λ t later. (keeps t s).0 ∙ holds t later in
      elim c.locked [
        | inl few ↦ elim (Bool-cases (leb n 3)) [
          | inl four ↦ record {
            failures = suc n;
            start = c.start;
            until = c.start;
            begun = omega arith;
            bounded = omega (arith, few);
            holds = holds';
            locked = inl (ground (arith, four));
            spaced = ground (arith, four);
          }
          | inr fifth ↦
              let low : 4 ≤ n = ground (arith, fifth) in
              attempt-locks address now n c.start s low (omega (arith, few))
                (ground (arith, few, c.begun, from)) number holds'
        ]
        | inr locked ↦
            let free =
              passes-unlocked cache hash email laws named address now c.until last s passed from
                locked in
            elim (Bool-cases (leb n 3)) [
              | inl four ↦ record {
                failures = suc n;
                start = c.start;
                until = c.start;
                begun = omega (arith, c.begun, from);
                bounded = ground (arith, four);
                holds = holds';
                locked = inl (ground (arith, four));
                spaced = ground (arith, four);
              }
              | inr fifth ↦
                  let low : 4 ≤ n = ground (arith, fifth) in
                  let room : c.start + earliest n ≤ now = omega (arith, c.spaced, free) in
                  attempt-locks address now n c.start s low (ground (arith, room, early, c.bounded))
                    room number holds'
            ]
      ]

  attempt-IsCounting :
      (address : String) (now last : ℕ) (s : S)
      → IsFresh cache hash email last s ⊎ Counting cache hash email last s
      → last ≤ now
      → check_not_locked_out cache hash email address now s ≡ ok tt
      → Counting cache hash email now (record_failed_attempt cache hash email address now s)
  attempt-IsCounting address now last s (inl fresh) from passed =
      attempt-absent cache hash email laws named address now s (fresh now from)
  attempt-IsCounting address now last s (inr c) from passed =
      elim (Bool-cases (ltb now (c.start + window))) [
        | inl early ↦ attempt-present address now last s c from passed early
        | inr over ↦
            attempt-absent cache hash email laws named address now s
              (c.holds now from ∙ rw over refl)
      ]

  Attempts-Counting :
      (first : ℕ) (s : S)
      → IsFresh cache hash email first s
      → (final : ℕ) (after : S) → Attempts cache hash email s first final after
      → IsFresh cache hash email final after ⊎ Counting cache hash email final after
  Attempts-Counting first s fresh final after none_yet = inl fresh
  Attempts-Counting first s fresh final after (one_more {last} {mid} address now run from passed) =
      inr (
        attempt-IsCounting address now last mid (Attempts-Counting first s fresh last mid run) from
          passed)

  -- On an account whose counter was absent, whatever failures follow one another, from whatever
  -- addresses, each one let through by the check: the counter never reaches 12, so the lockouts of 15
  -- and of 20 failures never come.
  pub Attempts-bounded :
      (first last t n : ℕ) (s after : S)
      → IsFresh cache hash email first s
      → Attempts cache hash email s first last after
      → last ≤ t
      → cache.get t (login_fail account (hash email)) after ≡ some n
      → (n ≤ 11) × (get_or (lockout_seconds_for n) 0 ≤ 300)
  Attempts-bounded first last t n s after fresh run from stored =
      let few : n ≤ 11 = elim (Attempts-Counting first s fresh last after run) [
        | inl absent ↦ let no = absent t from in ground (arith, no, stored)
        | inr c ↦ let held = c.holds t from in ground (arith, held, stored, c.bounded)
      ] in
      (few, unfold lockout_seconds_for in (ground (arith, few)))
