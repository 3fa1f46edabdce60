-- ===== src/Profiles/Steps.antt =====
-- Steps of a block that returned.
use launch_code.Prelude.{
  ◌≡◌, Option, none, some, Result, ok, err, ◌>>=◌, bind-eq-ok, map_err, ok_or,
}

pub after_result :
    {E A B P : Type 0} (m : Result E A) (f : A → Result E B) {b : B}
    → (m >>= f) ≡ ok b
    → ((a : A) → m ≡ ok a → f a ≡ ok b → P)
    → P
after_result m f h next = let (a, e, k) = bind-eq-ok m f h in next a e k

pub map_err-eq-ok :
    {A E F : Type 0} (f : E → F) (r : Result E A) {a : A} → map_err f r ≡ ok a → r ≡ ok a
map_err-eq-ok f (ok b) h = cc
map_err-eq-ok f (err e) h = cc

pub ok_or-eq-ok : {A E : Type 0} (o : Option A) (e : E) {a : A} → ok_or o e ≡ ok a → o ≡ some a
ok_or-eq-ok none e h = cc
ok_or-eq-ok (some b) e h = cc
