-- ===== src/Base/Sample.antt =====
-- Whole units for a float, which meet the laws: used by the tests.
use newchanges.Base.{ℕ, ◌+◌, ◌-◌, ◌*◌, ltb, leb, arith}
use newchanges.Base.Float.{Float, IsOrdered}

instance abbrev pub nat_float : Float ℕ
nat_float = record {
  nought = 0;
  hundred = 100;
  add = λ a b. a + b;
  sub = λ a b. a - b;
  scale = λ a n. a * n;
  le = leb;
  lt = ltb;
}

pub ℕ-IsOrdered : IsOrdered ℕ
ℕ-IsOrdered = record {
  le_refl = λ a. ground arith;
  le_trans = λ a b c h k. ground arith;
  le_total = λ a b. ground arith;
  lt-eq-not-le = λ a b. ground arith;
}
