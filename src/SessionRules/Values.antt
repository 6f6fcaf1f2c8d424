-- ===== src/SessionRules/Values.antt =====
-- What the cleaning of one string gives.
use stellar_payment_api.Base.{
  ℕ, Bool, false, ◌≡◌, refl, ap, ◌∙◌, inl, inr, [], ◌∷◌, Bool-cases, arith,
}
use stellar_payment_api.SessionRules.{
  Text, is_control, is_bidi, is_zero_width, is_space, strip, trim_start, trim_end, keep_nonspace,
  trim, any, sanitize_session_string,
}

-- No unit of a text that is dropped is left in it.
any-strip : (p : ℕ → Bool) (s : Text) → any p (strip p s) ≡ false
unfolding any strip
any-strip p [] = refl
any-strip p (c ∷ s) = ground (arith, any-strip p s)

-- Dropping units brings no new ones.
any-strip_none : (p q : ℕ → Bool) (s : Text) → any q s ≡ false → any q (strip p s) ≡ false
unfolding any strip
any-strip_none p q [] e = refl
any-strip_none p q (c ∷ s) e = ground (arith, any-strip_none p q s)

any-trim_start : (q : ℕ → Bool) (s : Text) → any q s ≡ false → any q (trim_start s) ≡ false
unfolding any trim_start
any-trim_start q [] e = refl
any-trim_start q (c ∷ s) e = ground (arith, any-trim_start q s)

any-keep_nonspace :
    (q : ℕ → Bool) (c : ℕ) (s : Text) → any q (c ∷ s) ≡ false → any q (keep_nonspace c s) ≡ false
unfolding any keep_nonspace
any-keep_nonspace q c [] e = ground arith
any-keep_nonspace q c (d ∷ s) e = e

any-trim_end : (q : ℕ → Bool) (s : Text) → any q s ≡ false → any q (trim_end s) ≡ false
unfolding any trim_end
any-trim_end q [] e = refl
any-trim_end q (c ∷ s) e = any-keep_nonspace q c (trim_end s) (ground (arith, any-trim_end q s))

any-trim : (q : ℕ → Bool) (s : Text) → any q s ≡ false → any q (trim s) ≡ false
unfolding trim
any-trim q s e = any-trim_end q (trim_start s) (any-trim_start q s e)

trim_end-keep_nonspace :
    (c : ℕ) (t : Text) → trim_end t ≡ t → trim_end (keep_nonspace c t) ≡ keep_nonspace c t
unfolding trim_end keep_nonspace
trim_end-keep_nonspace c [] e = ground arith
trim_end-keep_nonspace c (d ∷ t) e = ap (keep_nonspace c) e

trim_end-trim_end : (s : Text) → trim_end (trim_end s) ≡ trim_end s
unfolding trim_end
trim_end-trim_end [] = refl
trim_end-trim_end (c ∷ s) = trim_end-keep_nonspace c (trim_end s) (trim_end-trim_end s)

trim_start-keep_nonspace :
    (c : ℕ) (t : Text) → is_space c ≡ false → trim_start (keep_nonspace c t) ≡ keep_nonspace c t
unfolding trim_start keep_nonspace
trim_start-keep_nonspace c [] e = ground arith
trim_start-keep_nonspace c (d ∷ t) e = ground arith

trim_start-trim_end : (s : Text) → trim_start (trim_end (trim_start s)) ≡ trim_end (trim_start s)
unfolding trim_start trim_end
trim_start-trim_end [] = refl
trim_start-trim_end (c ∷ s) = elim (Bool-cases (is_space c)) [
  | inl e ↦ rw e (trim_start-trim_end s)
  | inr e ↦ rw e (trim_start-keep_nonspace c (trim_end s) e)
]

trim-trim : (s : Text) → trim (trim s) ≡ trim s
unfolding trim
trim-trim s = ap trim_end (trim_start-trim_end s) ∙ trim_end-trim_end (trim_start s)

-- A text that the cleaning may give: trimmed, and free of the three classes of units.
pub record IsClean (t : Text) : Type 0 where
  pub trimmed : trim t ≡ t
  pub no_control : any is_control t ≡ false
  pub no_bidi : any is_bidi t ≡ false
  pub no_zero_width : any is_zero_width t ≡ false

pub sanitize_session_string-IsClean :
    (nfc : Text → Text) (raw : Text) → IsClean (sanitize_session_string nfc raw).value
unfolding sanitize_session_string
sanitize_session_string-IsClean nfc raw =
    let bidi = strip is_bidi (nfc raw) in
    let zero_width = strip is_zero_width bidi in
    record {
      trimmed = trim-trim (strip is_control zero_width);
      no_control =
          any-trim is_control (strip is_control zero_width) (any-strip is_control zero_width);
      no_bidi = any-trim is_bidi (strip is_control zero_width) (
          any-strip_none is_control is_bidi zero_width
            (any-strip_none is_zero_width is_bidi bidi (any-strip is_bidi (nfc raw))));
      no_zero_width =
          any-trim is_zero_width (strip is_control zero_width)
            (any-strip_none is_control is_zero_width zero_width (any-strip is_zero_width bidi));
    }
