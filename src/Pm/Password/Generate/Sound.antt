-- ===== src/Pm/Password/Generate/Sound.antt =====
-- src/pm/pm_password_gen.c: what the generator's texts are.
use hiya.Base.{
  ℕ, Bool, true, false, not, ◌||◌, List, [], length, ltb, ◌==◌, ◌≡◌, refl, if-Is, if-Is_split, inl,
  inr, ◌⊎◌,
}
use mathlib.Core.Path.{subst}
use hiya.Pm.Errors.{PmError, ok, policy, invalid_param, nomem, Result, done, fail, and_then}
use hiya.Pm.Password.{Policy, Source}
use hiya.Pm.Password.Charset.{build_charset_string}
use hiya.Pm.Password.Check.{validate_password_policy}
use hiya.Pm.Password.Check.Complies.{Complies, validate_password_policy-Complies}
use hiya.Pm.Password.Generate.{
  is_ok, attempts, final_check, with_charset, password_generate, max_attempts,
}

-- A predicate on what a call returns, when it returns.
abbrev pub Returns {ℓ κ} : {A : Type ℓ} → (A → Type κ) → Result A → Type κ
Returns P (done a) = P a
Returns P (fail rc) = Unit {_}

pub and_then-Returns {ℓ ℓ' κ} :
    {A : Type ℓ} {B : Type ℓ'} (P : B → Type κ) (r : Result A) (f : A → Result B)
    → ((a : A) → r ≡ done a → Returns P (f a))
    → Returns P (and_then r f)
and_then-Returns P (done a) f h = h a refl
and_then-Returns P (fail rc) f h = tt

pub Returns-at {ℓ κ} :
    {A : Type ℓ} (P : A → Type κ) (r : Result A) (a : A) → Returns P r → r ≡ done a → P a
Returns-at P r a h e = subst (Returns P) e h

pub Returns-map {ℓ κ κ'} :
    {A : Type ℓ} (P : A → Type κ) (Q : A → Type κ') (r : Result A)
    → ((a : A) → P a → Q a)
    → Returns P r
    → Returns Q r
Returns-map P Q (done a) f h = f a h
Returns-map P Q (fail rc) f h = tt

pub Result-cases {ℓ} :
    {A : Type ℓ} (r : Result A) → ((rc : PmError) × (r ≡ fail rc)) ⊎ ((a : A) × (r ≡ done a))
Result-cases (fail rc) = inl (rc, refl)
Result-cases (done a) = inr (a, refl)

is_ok→ok : (rc : PmError) → is_ok rc ≡ true → rc ≡ ok
is_ok→ok ok h = refl
is_ok→ok rc h = cc

final_check-Complies :
    (p : Policy) (pwd : List ℕ) (n : ℕ) → Returns (λ r. Complies p r.0) (final_check p (pwd, n))
final_check-Complies p pwd n =
    if-Is_split (Returns (λ r. Complies p r.0)) (is_ok (validate_password_policy pwd p))
      (done (pwd, n)) (fail policy)
      (λ e. (validate_password_policy-Complies p pwd).0 (is_ok→ok _ e)) (λ e. tt)

-- What holds of a compliant attempt with its required characters holds of a result.
pub generate-Returns :
    (P : List ℕ × ℕ → Type 0) (room_charset room : Bool) (source : Source) (n : ℕ) (p : Policy)
    → ((cs : List ℕ) (r : List ℕ × ℕ)
        → build_charset_string room_charset p ≡ done cs
        → (length cs == 0) ≡ false
        → attempts source p cs n max_attempts [] ≡ done r
        → Returns P (final_check p r))
    → Returns P (password_generate room_charset room source n p)
unfolding password_generate
generate-Returns P room_charset room source n p h =
    if-Is (Returns P) (ltb p.length 1 || ltb 128 p.length) (fail invalid_param)
      (and_then (build_charset_string room_charset p) (with_charset room source n p)) tt
      (and_then-Returns P (build_charset_string room_charset p) (with_charset room source n p)
        (λ cs e.
          if-Is_split (Returns P) (length cs == 0) (fail invalid_param) _ (λ z. tt)
            (λ z. if-Is (Returns P) (not room) (fail nomem) _ tt (
              and_then-Returns P (attempts source p cs n max_attempts []) (final_check p)
                (λ r a. h cs r e z a)))))

-- For any policy, random source and allocations, a password that pm_password_generate returns
-- complies with the policy.
pub password_generate-Complies :
    (room_charset room : Bool) (source : Source) (n : ℕ) (p : Policy)
    → Returns (λ r. Complies p r.0) (password_generate room_charset room source n p)
password_generate-Complies room_charset room source n p =
    generate-Returns (λ r. Complies p r.0) room_charset room source n p
      (λ cs r e z a. final_check-Complies p r.0 r.1)
