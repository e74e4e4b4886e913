-- ===== src/Pm/Password/Generate/Best.antt =====
-- src/pm/pm_password_gen.c, `pm_password_generate_best`: its password is the strongest candidate.
use hiya.Base.{
  not, ℕ, zero, suc, ◌≤◌, Bool, true, ◌||◌, List, [], ◌∷◌, length, ltb, ◌==◌, if-Is, if-Is_split,
  Option, none, some, ◌≡◌, refl, ap, arith, tests, All,
}
use hiya.Pm.Errors.{done, fail, invalid_param, nomem}
use hiya.Pm.Password.{Policy, Source}
use hiya.Pm.Password.Check.Complies.{Complies}
use hiya.Pm.Password.Generate.{
  password_generate, candidates, stronger, strongest, or_first, copied, password_generate_best,
}
use hiya.Pm.Password.Generate.Sound.{
  Returns, Returns-at, and_then-Returns, password_generate-Complies,
}

abbrev from_entropy : Option ℕ → ℕ
from_entropy none = 0
from_entropy (some e) = e

module _ (entropy : List ℕ → Option ℕ) where
  -- The entropy of a candidate, 0 where it is not assessed.
  abbrev pub rank : List ℕ → ℕ
  rank c = from_entropy (entropy c)

  module _ (P : List ℕ → Type 0) where
    -- What is known of the strongest so far.
    abbrev Leads : Option (List ℕ) × ℕ → Type 0
    Leads (none, most) = most ≡ 0
    Leads (some c, most) = P c × (rank c ≡ most)

    stronger-Leads :
        (e : Option ℕ) (c : List ℕ) (best : Option (List ℕ) × ℕ)
        → entropy c ≡ e
        → P c
        → Leads best
        → Leads (stronger e c best)
          × (best.1 ≤ (stronger e c best).1)
          × (rank c ≤ (stronger e c best).1)
    stronger-Leads none c best q p h = (h, omega arith, rw q (omega arith))
    stronger-Leads (some e) c best q p h =
        if-Is_split (λ b. Leads b × (best.1 ≤ b.1) × (rank c ≤ b.1)) (ltb best.1 e) (some c, e) best
          (λ t. ((p, rw q refl), omega tests, rw q (omega arith)))
          (λ t. (h, omega arith, rw q (ground arith)))

    strongest-Leads :
        (cs : List (List ℕ)) (best : Option (List ℕ) × ℕ)
        → All P cs
        → Leads best
        → Leads (strongest entropy cs best)
          × (best.1 ≤ (strongest entropy cs best).1)
          × All (λ c. rank c ≤ (strongest entropy cs best).1) cs
    unfolding strongest
    strongest-Leads [] best h l = (l, omega arith, tt)
    strongest-Leads (c ∷ cs) best (p, h) l =
        let (l', up, above) = stronger-Leads (entropy c) c best refl p l in
        let (l2, up2, rest) = strongest-Leads cs (stronger (entropy c) c best) h l' in
        (l2, omega (arith, up, up2), (omega (arith, above, up2), rest))

  -- Each is at most as strong.
  abbrev pub Strongest : List (List ℕ) → List ℕ → Type 0
  Strongest cs pwd = All (λ c. rank c ≤ rank pwd) cs

  weaken :
      (a b : ℕ) (cs : List (List ℕ)) → a ≤ b → All (λ c. rank c ≤ a) cs → All (λ c. rank c ≤ b) cs
  weaken a b [] h q = tt
  weaken a b (c ∷ cs) h (p, q) = (omega (arith, p), weaken a b cs h q)

  or_first-Strongest :
      (P : List ℕ → Type 0) (cs : List (List ℕ)) (best : Option (List ℕ)) (most : ℕ)
      → All P cs
      → Leads P (best, most)
      → All (λ c. rank c ≤ most) cs
      → Returns (λ pwd. P pwd × Strongest cs pwd) (or_first cs best)
  or_first-Strongest P cs (some b) most h (p, e) q =
      (p, weaken most (rank b) cs (omega (arith, e)) q)
  or_first-Strongest P [] none most h e q = tt
  or_first-Strongest P (c ∷ cs) none most (p, h) e q =
      (p, weaken most (rank c) (c ∷ cs) (omega (arith, e)) q)

candidates-Complies :
    (source : Source) (n : ℕ) (p : Policy) (k : ℕ)
    → Returns (λ cs. (length cs ≡ k) × All (Complies p) cs) (candidates source n p k)
unfolding candidates
candidates-Complies source n p zero = (refl, tt)
candidates-Complies source n p (suc k) =
    and_then-Returns _ (password_generate true true source n p) _ (λ one e.
      and_then-Returns _ (candidates source one.1 p k) _ (λ rest e'.
        let good = Returns-at _ _ one (password_generate-Complies true true source n p) e in
        let (size, each) = Returns-at _ _ rest (candidates-Complies source one.1 p k) e' in
        (ap suc size, (good, each))))

-- The password complies, and none of the `count` candidates is stronger.
abbrev pub Chosen : (List ℕ → Option ℕ) → Source → ℕ → Policy → ℕ → List ℕ → Type 0
Chosen entropy source n p count pwd =
    Complies p pwd
    × ((cs : List (List ℕ)) × ((candidates source n p count ≡ done cs)
          × (length cs ≡ count)
          × Strongest entropy cs pwd))

-- For any assessment of entropy, and memory enough for each candidate, a password that
-- pm_password_generate_best returns complies with the policy, and of the candidates that were
-- drawn, as many as were asked for, none has a higher entropy; a candidate that cannot be
-- assessed counts as 0.
pub password_generate_best-Strongest :
    (room_list room_copy : Bool) (entropy : List ℕ → Option ℕ) (source : Source) (n : ℕ)
    (p : Policy) (count : ℕ)
    → Returns
        (Chosen entropy source n p count)
        (password_generate_best room_list room_copy entropy source n p count)
unfolding password_generate_best
password_generate_best-Strongest room_list room_copy entropy source n p count =
    let P = Chosen entropy source n p count in
    if-Is (Returns P) (count == 0 || ltb 100 count) (fail invalid_param) _ tt (
      if-Is (Returns P) (not room_list) (fail nomem) _ tt (
        and_then-Returns P (candidates source n p count) _ (λ cs e.
          let (size, each) = Returns-at _ _ cs (candidates-Complies source n p count) e in
          let (leads, up, all) = strongest-Leads entropy (Complies p) cs (none, 0) each refl in
          let best = or_first-Strongest entropy (Complies p) cs _ _ each leads all in
          and_then-Returns P (or_first cs (strongest entropy cs (none, 0)).0) (copied room_copy)
            (λ pwd e'.
              let h = Returns-at _ _ pwd best e' in
              if-Is (Returns P) room_copy (done pwd) (fail nomem) (h.0, (cs, (e, size, h.1))) tt))))
