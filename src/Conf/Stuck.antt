-- ===== src/Conf/Stuck.antt =====
-- src/conf.cc, `parse_block`: a byte on which it makes no progress.
use ndppd.Base.{
  ℕ, zero, suc, ◌≡◌, refl, ◌∙◌, ap, Bool, true, false, ◌||◌, [], ◌∷◌, none, ◌==◌, arith, Bytes,
}
use ndppd.Tables.{is_between}
use ndppd.Conf.{
  Entries, end, conf, is_blank, no_comment, comment_at, skip, is_name, is_alnum, is_plain,
  take_while, read_value, after, skip_equals, insert, parsed, out_of_fuel, and_then, at_end,
  parse_block, parse,
}
use ndppd.Conf.Skip.{is_printable, skip-IsSkipped}
use ndppd.Conf.Ends.{take_while-stop}
use ndppd.Conf.Total.{skip_equals-none}
use ndppd.Conf.Rounds.{front_value, behind_value, entry_text, parse-plain, parse_block-entry}

no_comment_start :
    (c : ℕ) (str : Bytes) → is_printable c ≡ false → comment_at (c ∷ str) ≡ no_comment
unfolding comment_at is_between
no_comment_start c [] odd = ground arith
no_comment_start c (b ∷ str) odd = ground arith

no_blank : (c : ℕ) (newlines : Bool) → is_printable c ≡ false → is_blank newlines c ≡ false
unfolding is_blank
no_blank c newlines odd = ground arith

no_name : (c : ℕ) → is_printable c ≡ false → is_name c ≡ false
unfolding is_name is_alnum is_between
no_name c odd = ground arith

no_after : (b c : ℕ) (str : Bytes) → (c == b) ≡ false → after b (c ∷ str) ≡ none
unfolding after
no_after b c str h = rw h refl

no_value : (c : ℕ) (str : Bytes) → is_printable c ≡ false → read_value (c ∷ str) ≡ ([], c ∷ str)
unfolding read_value is_between is_plain
no_value c str odd =
    let no_quote : ((c == 39) || (c == 34)) ≡ false = ground arith in
    rw no_quote (take_while-stop is_plain c str (ground arith))

goes_on : (c : ℕ) (str : Bytes) → is_printable c ≡ false → at_end (c ∷ str) ≡ false
unfolding at_end is_between
goes_on c str odd = ground arith

no_brace : (c : ℕ) → is_printable c ≡ false → ((c == 123) ≡ false) × ((c == 61) ≡ false)
unfolding is_between
no_brace c odd = ground arith

no_fuel : (es : Entries) (str : Bytes) → parse_block 0 es str ≡ out_of_fuel
unfolding parse_block
no_fuel es str = refl

no_fuel_parse : (str : Bytes) → parse 0 str ≡ out_of_fuel
unfolding parse
no_fuel_parse str = refl

module _ (c : ℕ) (str : Bytes) (odd : is_printable c ≡ false) where
  stuck-skip : (newlines : Bool) → skip newlines (c ∷ str) ≡ c ∷ str
  stuck-skip newlines =
      skip-IsSkipped newlines (c ∷ str) (no_comment_start c str odd, no_blank c newlines odd)

  stuck-behind_value : behind_value (c ∷ str) ≡ c ∷ str
  stuck-behind_value =
      ap (λ s. skip false (read_value s).1) (stuck-skip false)
      ∙ (ap (λ (r : Bytes × Bytes). skip false r.1) (no_value c str odd) ∙ stuck-skip false)

  stuck-parse :
      (fuel : ℕ)
      → parse (suc fuel) (c ∷ str) ≡ parsed (conf (front_value (c ∷ str)) false end) (c ∷ str)
  stuck-parse fuel =
      parse-plain fuel (c ∷ str)
        (ap (after 123) stuck-behind_value ∙ no_after 123 c str (no_brace c odd).0)
      ∙ ap (parsed (conf (front_value (c ∷ str)) false end)) stuck-behind_value

  stuck-entry_text : entry_text (c ∷ str) ≡ c ∷ str
  stuck-entry_text =
      ap (λ (r : Bytes × Bytes). skip_equals (skip false r.1))
        (take_while-stop is_name c str (no_name c odd))
      ∙ (ap skip_equals (stuck-skip false)
          ∙ skip_equals-none (c ∷ str) (no_after 61 c str (no_brace c odd).1))

  stuck-round :
      (fuel : ℕ) (es : Entries)
      → parse_block (suc fuel) es (c ∷ str)
        ≡ and_then
            (parse fuel (c ∷ str))
            (λ cf rest. parse_block fuel (insert (take_while is_name (c ∷ str)).0 cf es) rest)
  stuck-round fuel es =
      parse_block-entry fuel c es str (ap at_end (stuck-skip true) ∙ goes_on c str odd)
      ∙ ap
          (λ s.
            and_then (parse fuel (entry_text s))
              (λ cf rest. parse_block fuel (insert (take_while is_name s).0 cf es) rest))
          (stuck-skip true)
      ∙ ap
          (λ s.
            and_then (parse fuel s)
              (λ cf rest. parse_block fuel (insert (take_while is_name (c ∷ str)).0 cf es) rest))
          stuck-entry_text

  -- On a text that begins with a byte that is neither a blank nor visible, `parse_block` makes
  -- no progress: no amount of fuel is enough.
  pub parse_block-stuck : (fuel : ℕ) (es : Entries) → parse_block fuel es (c ∷ str) ≡ out_of_fuel
  parse_block-stuck zero es = no_fuel es (c ∷ str)
  parse_block-stuck (suc zero) es = stuck-round 0 es ∙ rw (no_fuel_parse (c ∷ str)) refl
  parse_block-stuck (suc (suc fuel)) es =
      stuck-round (suc fuel) es ∙ rw (stuck-parse fuel) (parse_block-stuck (suc fuel) _)
