-- ===== src/NdProxy/Options.antt =====
-- nd-proxy.c: the loop of `find_option` ends.
use ndppd.Base.{
  ℕ, zero, suc, ◌+◌, ◌≤◌, ◌≡◌, refl, ap, Bool, true, ◌==◌, if◌then◌else◌, arith, Option, none, some,
  get_elem?, Bytes,
}
use ndppd.Iface.Packets.{◌>>=◌}
use ndppd.NdProxy.{find_from}

bind-same :
    {A B : Type 0} (m : Option A) (f g : A → Option B)
    → ((a : A) → f a ≡ g a)
    → (m >>= f) ≡ (m >>= g)
bind-same none f g h = refl
bind-same (some a) f g h = h a

if-same :
    {A : Type 0} (b : Bool) (x y y' : A) → y ≡ y' → (if b then x else y) ≡ (if b then x else y')
if-same b x y y' e = ap (λ z. if b then x else z) e

pub find_from-rounds :
    (rounds rounds' : ℕ) (buf : Bytes) (pos len type : ℕ)
    → len ≤ rounds
    → len ≤ rounds'
    → find_from rounds buf pos len type ≡ find_from rounds' buf pos len type
unfolding find_from
find_from-rounds zero zero buf pos len type a b = refl
find_from-rounds zero (suc k') buf pos len type a b =
    let none_left : (len == 0) ≡ true = ground arith in rw none_left refl
find_from-rounds (suc k) zero buf pos len type a b =
    let none_left : (len == 0) ≡ true = ground arith in rw none_left refl
find_from-rounds (suc k) (suc k') buf pos len type a b = if-same (len == 0) _ _ _ (
    bind-same (get_elem? buf (pos + 1)) _ _ (λ size. bind-same (get_elem? buf pos) _ _ (λ found.
      if-same (found == type) _ _ _
        (find_from-rounds k k' buf _ _ type (omega arith) (omega arith)))))
