-- ===== src/Domain/Emails.antt =====
-- What `normalize_email` and `validate_password` accept.
use lsstack.Domain.Users.{check_email, normalize_email, validate_password}
use lsstack.Exec.{ok}
use lsstack.Platform.{Platform}
use lsstack.Prelude.{
  [], any, arith, false, is_empty, length, refl, sym, ℕ, ◌++◌, ◌+◌, ◌↔◌, ◌∷◌, ◌≡◌, ◌≢◌, ◌≤◌,
}
use lsstack.Text.{Text, before, behind, contains, count, is_space, strip, text_eq_refl, text_eq→eq}
use mathlib.Core.Path.{subst}

-- A login email: one `@` between a local part and a domain with a dot, no whitespace, at most 320
-- characters.
pub record IsEmail (e : Text) : Type 0 where
  pub local : Text
  pub domain : Text
  pub split : e ≡ local ++ b'@' ∷ domain
  pub local_plain : count b'@' local ≡ 0
  pub domain_plain : count b'@' domain ≡ 0
  pub local_present : is_empty local ≡ false
  pub domain_present : is_empty domain ≡ false
  pub dotted : count b'.' domain ≢ 0
  pub unspaced : any is_space e ≡ false
  pub short : length e ≤ 320

split-count : (c : ℕ) (s : Text) → count c s ≢ 0 → s ≡ before c s ++ c ∷ behind c s
unfolding count before behind
split-count c [] h = absurd (h refl)
split-count c (d ∷ s) h = ground (arith, split-count c s)

count-before : (c : ℕ) (s : Text) → count c (before c s) ≡ 0
unfolding count before
count-before c [] = refl
count-before c (d ∷ s) = ground (arith, count-before c s)

count-behind : (c : ℕ) (s : Text) → count c s ≡ 1 → count c (behind c s) ≡ 0
unfolding count behind
count-behind c [] h = refl
count-behind c (d ∷ s) h = ground (arith, count-behind c s)

count-append : (c : ℕ) (s t : Text) → count c (s ++ t) ≡ count c s + count c t
unfolding count
count-append c [] t = omega arith
count-append c (d ∷ s) t = omega (arith, count-append c s t)

before-append : (c : ℕ) (s t : Text) → count c s ≡ 0 → before c (s ++ c ∷ t) ≡ s
unfolding count before
before-append c [] t h = ground arith
before-append c (d ∷ s) t h = ground (arith, before-append c s t)

behind-append : (c : ℕ) (s t : Text) → count c s ≡ 0 → behind c (s ++ c ∷ t) ≡ t
unfolding count behind
behind-append c [] t h = ground arith
behind-append c (d ∷ s) t h = ground (arith, behind-append c s t)

check_email-IsEmail : (e f : Text) → check_email e ≡ ok f → (f ≡ e) × IsEmail e
unfolding check_email
check_email-IsEmail e f h =
    let once : count b'@' e ≡ 1 = ground arith in
    (
      ground arith,
      record {
        local = before b'@' e;
        domain = behind b'@' e;
        split = split-count b'@' e (omega arith);
        local_plain = count-before b'@' e;
        domain_plain = count-behind b'@' e once;
        local_present = ground arith;
        domain_present = ground arith;
        dotted = ground arith;
        unspaced = ground arith;
        short = ground arith;
      },
    )

is_empty-append : (s t : Text) (c : ℕ) → is_empty (s ++ c ∷ t) ≡ false
is_empty-append [] t c = refl
is_empty-append (d ∷ s) t c = refl

count_split : (s t : Text) → count b'@' s ≡ 0 → count b'@' t ≡ 0 → count b'@' (s ++ b'@' ∷ t) ≡ 1
count_split s t hs ht = rw (count-append b'@' s (b'@' ∷ t)) (unfold count in omega arith)

check_email_complete : (e : Text) → IsEmail e → check_email e ≡ ok e
unfolding check_email
check_email_complete e v =
    let once : count b'@' e ≡ 1 =
      rw v.split (count_split v.local v.domain v.local_plain v.domain_plain) in
    let present : is_empty e ≡ false = rw v.split (is_empty-append v.local v.domain b'@') in
    let head : before b'@' e ≡ v.local =
      rw v.split (before-append b'@' v.local v.domain v.local_plain) in
    let rest : behind b'@' e ≡ v.domain =
      rw v.split (behind-append b'@' v.local v.domain v.local_plain) in
    ground (arith, v.local_present, v.domain_present, v.dotted, v.unspaced, v.short)

-- An email is accepted exactly when its canonical form is a login email, and is then that form.
pub normalize_email_iff :
    (p : Platform) (value e : Text)
    → (normalize_email p value ≡ ok e) ↔ ((e ≡ p.casefold (strip (p.nfkc value))) × IsEmail e)
unfolding normalize_email
normalize_email_iff p value e = (
  λ h.
      let (same, v) = check_email-IsEmail (p.casefold (strip (p.nfkc value))) e h in
      (same, subst IsEmail (sym same) v),
  λ h. rw (← h.0) (check_email_complete e h.1),
)

-- The conditions on a new password, for the account of the given email.
pub record IsPassword (p : Platform) (password email : Text) : Type 0 where
  pub long : 12 ≤ length password
  pub short : length password ≤ 128
  pub stripped : strip password ≡ password
  pub no_email : contains email (p.casefold (p.nfkc password)) ≡ false

-- A password is accepted exactly when it meets the four conditions.
pub validate_password_iff :
    (p : Platform) (password email : Text)
    → (validate_password p password email ≡ ok tt) ↔ IsPassword p password email
unfolding validate_password
validate_password_iff p password email = (
  λ h. record {
    long = ground arith;
    short = ground arith;
    stripped = sym (text_eq→eq password (strip password) (ground arith));
    no_email = ground arith;
  },
  λ v. ground (arith, v.long, v.short, v.no_email, text_eq_refl password, v.stripped),
)
