-- ===== src/Crdt/Clock.antt =====
-- splittr-crdt/src/clock.rs: the hybrid logical clock and its derived order.
use splittr.Prelude.{ℕ, ◌≡◌, arith, Ordering}
use splittr.Prelude.Ord.{Ord, flip, then_with}
use Prim.Native.Nat.{compare}
use Prim.Native.Nat.Ordering.{lt, eq}

abbrev pub SiteId : Type 0
SiteId = ℕ

pub record Hlc : Type 0 where
  pub wall_ms : ℕ
  pub counter : ℕ
  pub site : SiteId

-- The fields in the order of their declaration.
abbrev pub cmp_hlc : Hlc → Hlc → Ordering
cmp_hlc a b =
    then_with (compare a.wall_ms b.wall_ms)
      (then_with (compare a.counter b.counter) (compare a.site b.site))

pub hlc_self : (a : Hlc) → cmp_hlc a a ≡ eq
hlc_self a = ground arith

pub eq_of_hlc : (a b : Hlc) → cmp_hlc a b ≡ eq → a ≡ b
eq_of_hlc a b = ground arith

pub hlc_flip : (a b : Hlc) → cmp_hlc b a ≡ flip (cmp_hlc a b)
hlc_flip a b = ground arith

pub hlc_trans : (a b c : Hlc) → cmp_hlc a b ≡ lt → cmp_hlc b c ≡ lt → cmp_hlc a c ≡ lt
hlc_trans a b c = ground arith

instance abbrev pub hlc_ord : Ord Hlc
hlc_ord = record {
  cmp = cmp_hlc;
  cmp_self = hlc_self;
  eq_of_cmp = eq_of_hlc;
  cmp_flip = hlc_flip;
  lt_trans = hlc_trans;
}
