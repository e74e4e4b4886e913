-- ===== src/Pm/Password/Report.antt =====
-- src/pm/pm_password_gen.c, `pm_password_check_policy`: the report on a password in `err_buf`, of which
-- the model has the characters before `err_pos`.
pub mod Clean
use hiya.Base.{
  ℕ, ◌+◌, ◌<◌, Bool, true, false, not, ◌&&◌, List, [], ◌∷◌, ◌++◌, length, ltb, if◌then◌else◌, codes,
  member, append_assoc, length-append, ◌≡◌, refl, if-Is, if-Is_split, arith, tests,
}
use hiya.Pm.Errors.{PmError, ok, policy, nomem}
use hiya.Pm.Password.{Policy, charset_ambiguous}
use hiya.Pm.Password.Check.{Counts, no_counts, count_char, repeats}

-- `sizeof(err_buf)`
abbrev pub err_size : ℕ
err_size = 1024

abbrev pub separated : List ℕ → List ℕ → List ℕ
separated [] msg = msg
separated (e ∷ err) msg = (e ∷ err) ++ (b';' ∷ b' ' ∷ msg)

-- `APPEND_ERR`.
unfoldable pub append_err : List ℕ → List ℕ → List ℕ
append_err msg err = if ltb (length err + length msg + 2) err_size then separated err msg else err

-- `if (bad) APPEND_ERR(msg);`
abbrev pub note : Bool → List ℕ → List ℕ → List ℕ
note bad msg err = if bad then append_err msg err else err

abbrev pub too_short : List ℕ
too_short = codes "too short"

abbrev pub has_ambiguous : List ℕ
has_ambiguous = codes "contains ambiguous character"

abbrev pub has_repeating : List ℕ
has_repeating = codes "contains repeating characters"

abbrev pub few_uppercase : List ℕ
few_uppercase = codes "too few uppercase letters"

abbrev pub few_lowercase : List ℕ
few_lowercase = codes "too few lowercase letters"

abbrev pub few_digits : List ℕ
few_digits = codes "too few digits"

abbrev pub few_symbols : List ℕ
few_symbols = codes "too few symbols"

-- The messages of the loop's body.
unfoldable pub note_char : Policy → List ℕ → ℕ → List ℕ → List ℕ
note_char p before c err =
    note (p.no_repeating && repeats before c) has_repeating
      (note (p.exclude_ambiguous && member c charset_ambiguous) has_ambiguous err)

-- The loop: the counts and the messages.
unfoldable pub note_chars : Policy → List ℕ → List ℕ → Counts → List ℕ → Counts × List ℕ
note_chars p before [] n err = (n, err)
note_chars p before (c ∷ rest) n err =
    note_chars p (c ∷ before) rest (count_char c n) (note_char p before c err)

unfoldable pub note_counts : Policy → Counts × List ℕ → List ℕ
note_counts p (n, err) = note (ltb n.symbols p.min_symbols) few_symbols (
    note (ltb n.digits p.min_digits) few_digits (
      note (ltb n.lowercase p.min_lowercase) few_lowercase
        (note (ltb n.uppercase p.min_uppercase) few_uppercase err)))

-- `err_buf` at the end.
unfoldable pub report : List ℕ → Policy → List ℕ
report password p =
    note_counts p
      (note_chars p [] password no_counts (note (ltb (length password) p.length) too_short []))

abbrev pub answered : Bool → List ℕ → List ℕ × PmError
answered room [] = ([], ok)
answered room (e ∷ err) = if room then (e ∷ err, policy) else ([], nomem)

-- `pm_password_check_policy`: the text in `*errors`, and the status; `room` is whether `strdup` succeeds.
unfoldable pub check_policy : Bool → List ℕ → Policy → List ℕ × PmError
check_policy room password p = answered room (report password p)

-- The text and the NUL after it stay inside of `err_buf`.
abbrev pub Fits : List ℕ → Type 0
Fits err = length err < err_size

separated-length : (err msg : List ℕ) → length (separated err msg) < length err + length msg + 3
separated-length [] msg = omega arith
separated-length (e ∷ err) msg = omega (arith, length-append err (b';' ∷ b' ' ∷ msg))

append_err-Fits : (msg err : List ℕ) → Fits err → Fits (append_err msg err)
unfolding append_err
append_err-Fits msg err h =
    if-Is_split Fits (ltb (length err + length msg + 2) err_size) (separated err msg) err
      (λ e. omega (tests, separated-length err msg)) (λ e. h)

note-Fits : (bad : Bool) (msg err : List ℕ) → Fits err → Fits (note bad msg err)
note-Fits bad msg err h = if-Is Fits bad (append_err msg err) err (append_err-Fits msg err h) h

note_chars-Fits :
    (p : Policy) (before rest : List ℕ) (n : Counts) (err : List ℕ)
    → Fits err
    → Fits (note_chars p before rest n err).1
unfolding note_chars note_char
note_chars-Fits p before [] n err h = h
note_chars-Fits p before (c ∷ rest) n err h =
    note_chars-Fits p (c ∷ before) rest (count_char c n) (note_char p before c err) (
      note-Fits (p.no_repeating && repeats before c) has_repeating _
        (note-Fits (p.exclude_ambiguous && member c charset_ambiguous) has_ambiguous err h))

-- The text that pm_password_check_policy collects, with its NUL, never leaves the buffer of
-- 1024 bytes, however many violations the password has.
pub report-Fits : (password : List ℕ) (p : Policy) → Fits (report password p)
unfolding report note_counts
report-Fits password p =
    let (n, err) =
      note_chars p [] password no_counts (note (ltb (length password) p.length) too_short []) in
    let start = note-Fits (ltb (length password) p.length) too_short [] (omega arith) in
    note-Fits (ltb n.symbols p.min_symbols) few_symbols _ (
      note-Fits (ltb n.digits p.min_digits) few_digits _ (
        note-Fits (ltb n.lowercase p.min_lowercase) few_lowercase _ (
          note-Fits (ltb n.uppercase p.min_uppercase) few_uppercase _
            (note_chars-Fits p [] password no_counts _ start))))
