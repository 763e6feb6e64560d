-- ===== src/Conf/Quotes.antt =====
-- src/conf.cc, `parse`: a value in quotes.
use ndppd.Base.{
  ℕ, suc, ◌≡◌, refl, ◌∙◌, ap, Bool, true, false, ◌&&◌, [], ◌∷◌, ◌++◌, none, arith, Bytes,
}
use ndppd.Tables.{is_space, is_between}
use ndppd.Conf.{
  end, conf, is_blank, comment_at, skip, is_quoted, take_while, read_value, after, parsed, parse,
}
use ndppd.Conf.Skip.{IsSkipped, skip-IsSkipped}
use ndppd.Conf.Rounds.{front_value, behind_value, parse-plain}

-- Neither a double quote nor a newline.
abbrev pub is_quotable : Bytes → Bool
is_quotable [] = true
is_quotable (c ∷ v) = is_quoted 34 c && is_quotable v

quote-IsSkipped : (str : Bytes) → IsSkipped false (34 ∷ str)
unfolding comment_at is_blank is_space is_between
quote-IsSkipped [] = (refl, refl)
quote-IsSkipped (c ∷ str) = (refl, refl)

take_while-quoted :
    (v rest : Bytes)
    → is_quotable v ≡ true
    → take_while (is_quoted 34) (v ++ (34 ∷ rest)) ≡ (v, 34 ∷ rest)
unfolding take_while is_quoted
take_while-quoted [] rest h = refl
take_while-quoted (c ∷ v) rest h =
    let first : is_quoted 34 c ≡ true = ground arith in
    rw (take_while-quoted v rest (ground arith), first) refl

module _ (v rest : Bytes) (h : is_quotable v ≡ true) where
  abbrev quoted_text : Bytes
  quoted_text = 34 ∷ (v ++ (34 ∷ rest))

  read_value-quoted : read_value quoted_text ≡ (v, 34 ∷ rest)
  unfolding read_value
  read_value-quoted =
      ap (λ (r : Bytes × Bytes). (r.0, skip false r.1)) (take_while-quoted v rest h)
      ∙ ap (λ s. (v, s)) (skip-IsSkipped false (34 ∷ rest) (quote-IsSkipped rest))

  same_text : skip false quoted_text ≡ quoted_text
  same_text = skip-IsSkipped false quoted_text (quote-IsSkipped (v ++ (34 ∷ rest)))

  behind : behind_value quoted_text ≡ 34 ∷ rest
  behind =
      ap (λ s. skip false (read_value s).1) same_text
      ∙ (ap (λ (r : Bytes × Bytes). skip false r.1) read_value-quoted
          ∙ skip-IsSkipped false (34 ∷ rest) (quote-IsSkipped rest))

  front : front_value quoted_text ≡ v
  front = ap (λ s. (read_value s).0) same_text ∙ ap (λ (r : Bytes × Bytes). r.0) read_value-quoted

  no_block : after 123 (34 ∷ rest) ≡ none
  unfolding after
  no_block = refl

  -- A value in double quotes is read without them, but the closing quote stays in the text, so
  -- that whatever follows it, a block included, does not belong to the value.
  pub parse-quoted :
      (fuel : ℕ)
      → parse (suc fuel) (34 ∷ (v ++ (34 ∷ rest))) ≡ parsed (conf v false end) (34 ∷ rest)
  parse-quoted fuel =
      parse-plain fuel quoted_text (ap (after 123) behind ∙ no_block)
      ∙ (ap (λ s. parsed (conf s false end) (behind_value quoted_text)) front
          ∙ ap (parsed (conf v false end)) behind)
