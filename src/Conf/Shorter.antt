-- ===== src/Conf/Shorter.antt =====
-- src/conf.cc, `skip`: its inner loops leave no more than there was, and less of a comment.
use ndppd.Base.{
  ℕ, suc, ◌≤◌, ◌≡◌, Bool, true, false, ◌&&◌, [], ◌∷◌, ◌==◌, if◌then◌else◌, length, arith, Bytes,
}
use ndppd.Conf.{
  is_blank, skip_blanks, skip_line, skip_comment, to_line_end, to_comment_end, comment_at,
}

length-if :
    (n : ℕ) (b : Bool) (s t : Bytes) → length s ≤ n → length t ≤ n → length (if b then s else t) ≤ n
length-if n true s t h k = h
length-if n false s t h k = k

pub length-skip_blanks :
    (newlines : Bool) (str : Bytes) → length (skip_blanks newlines str) ≤ length str
unfolding skip_blanks
length-skip_blanks newlines [] = omega arith
length-skip_blanks newlines (c ∷ str) =
    length-if (suc (length str)) (is_blank newlines c) _ (c ∷ str)
      (omega (arith, length-skip_blanks newlines str)) (omega arith)

length-skip_line : (str : Bytes) → length (skip_line str) ≤ length str
unfolding skip_line
length-skip_line [] = omega arith
length-skip_line (c ∷ str) =
    length-if (suc (length str)) (c == 10) (c ∷ str) _ (omega arith)
      (omega (arith, length-skip_line str))

length-skip_comment : (str : Bytes) → length (skip_comment str) ≤ length str
unfolding skip_comment
length-skip_comment [] = omega arith
length-skip_comment (a ∷ []) = omega arith
length-skip_comment (a ∷ b ∷ str) =
    length-if (suc (suc (length str))) ((a == 42) && (b == 47)) str _ (omega arith)
      (omega (arith, length-skip_comment (b ∷ str)))

-- A comment is passed over in at least one step.
pub skip_line-shorter :
    (n : ℕ) (s : Bytes) → comment_at s ≡ to_line_end → length s ≤ suc n → length (skip_line s) ≤ n
unfolding comment_at skip_line
skip_line-shorter n [] e h = omega arith
skip_line-shorter n (c ∷ str) e h =
    let starts : (c == 10) ≡ false = line_start c str e in
    rw starts (omega (arith, length-skip_line str))
  where
    line_start : (c : ℕ) (str : Bytes) → comment_at (c ∷ str) ≡ to_line_end → (c == 10) ≡ false
    line_start c [] e = ground arith
    line_start c (b ∷ str) e = ground arith

pub skip_comment-shorter :
    (n : ℕ) (s : Bytes)
    → comment_at s ≡ to_comment_end
    → length s ≤ suc n
    → length (skip_comment s) ≤ n
unfolding comment_at skip_comment
skip_comment-shorter n [] e h = omega arith
skip_comment-shorter n (a ∷ []) e h = omega arith
skip_comment-shorter n (a ∷ b ∷ str) e h =
    let starts : ((a == 42) && (b == 47)) ≡ false = ground arith in
    rw starts (omega (arith, length-skip_comment (b ∷ str)))
