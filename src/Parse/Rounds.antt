-- ===== src/Parse/Rounds.antt =====
-- The rounds of the loop in `kason_scan_container` of kason.c on the elements of a JSON text.
use kason.Base.{
  ℕ, suc, ◌+◌, ◌<◌, Bool, true, false, ◌&&◌, ◌||◌, Option, some, ◌∷◌, ltb, ◌==◌, Bytes, ◌≡◌, refl,
  sym, subst, arith, ==_iff,
}
use kason.Chars.{is_whitespace, is_digit}
use kason.Parse.Tokens.{Slice, skip_whitespace}
use kason.Parse.Events.{Callback}
use kason.Parse.Scan.{
  member_key, scan_primitive, scan_start, scan_value, scan_child, next_element, after_child,
  scan_member, scan_round, scan_loop,
}
use kason.Parse.Frame.{
  max_nesting, Kind, object_kind, array_kind, open_mark, close_mark, Scan, failed, Frame, is_enter,
}
use kason.Parse.Grammar.{Spaces, here, IsPrimitive, value_part, Derives, primitive, container}
use kason.Parse.Primitive.{Delimited}
use kason.Parse.Heads.{
  Headed, starts_primitive, is_solid, primitive_head, skip_to, open_solid, solid_cases,
  close_spaceless,
}
use kason.Parse.Reach.{
  Polite, Reach, Reach-then, comma_other, if_false, Reach-primitive, Reach-close, Reach-value,
}

module _ {U : Type 0} (callback : Option (Callback U)) (polite : Polite callback) where
  child_primitive :
      (loop : Frame → ℕ → Bytes → U → Scan U) (f : Frame) (key : Option Slice) (u : U) (c : ℕ)
      (r : Bytes) {t : Bytes}
      → f.depth < max_nesting
      → starts_primitive c ≡ true
      → Reach (scan_primitive callback key (f.emit && is_enter f.action) (c ∷ r) u) t
      → Reach (scan_child callback loop f key (c ∷ r) u) t
  unfolding scan_child is_digit
  child_primitive loop f key u c r deep start z =
      let p : ltb max_nesting (f.depth + 1) ≡ false = ground (arith, deep) in
      let q : (c == b'{' || c == b'[') ≡ false = ground (arith, start) in rw (p, q) z

  child_container :
      (loop : Frame → ℕ → Bytes → U → Scan U) (f : Frame) (key : Option Slice) (u : U) (kind : Kind)
      (s : Bytes) {t : Bytes}
      → f.depth < max_nesting
      → Reach
          (scan_value callback loop key
            (f.emit && is_enter f.action)
            (f.depth + 1)
            (open_mark kind ∷ s)
            u)
          t
      → Reach (scan_child callback loop f key (open_mark kind ∷ s) u) t
  unfolding scan_child
  child_container loop f key u object_kind s deep z =
      let p : ltb max_nesting (f.depth + 1) ≡ false = ground (arith, deep) in
      if_false (failed u) p z
  child_container loop f key u array_kind s deep z =
      let p : ltb max_nesting (f.depth + 1) ≡ false = ground (arith, deep) in
      if_false (failed u) p z

  member_at :
      (fuel : ℕ) (f : Frame) (n : ℕ) (u : U) (key : Option Slice) (r : Bytes) {a t : Bytes}
      → Reach (scan_child callback (scan_loop callback fuel) f key r u) a
      → ((v : U)
          → Reach
              (after_child callback (scan_loop callback fuel) f (n + 1) (skip_whitespace a) v)
              t)
      → Reach (scan_member callback (scan_loop callback fuel) f n u (some (key, r))) t
  unfolding scan_member
  member_at fuel f n u key r {a} {t} child after =
      Reach-then (scan_child callback (scan_loop callback fuel) f key r u)
        (λ x v. after_child callback (scan_loop callback fuel) f (n + 1) (skip_whitespace x) v)
        {r = a} {t = t} child after

  round_open :
      (fuel : ℕ) (f : Frame) (n : ℕ) (u : U) (c : ℕ) (b : Bytes) {t : Bytes}
      → Reach (scan_member callback (scan_loop callback fuel) f n u (member_key f.kind (c ∷ b))) t
      → Reach (scan_loop callback (suc fuel) f n (c ∷ b) u) t
  unfolding scan_loop scan_round
  round_open fuel f n u c b h = h

  round_at :
      (fuel : ℕ) (f : Frame) (n : ℕ) (u : U) (c : ℕ) (b : Bytes) {key : Option Slice}
      {r a t : Bytes}
      → member_key f.kind (c ∷ b) ≡ some (key, r)
      → Reach (scan_child callback (scan_loop callback fuel) f key r u) a
      → ((v : U)
          → Reach
              (after_child callback (scan_loop callback fuel) f (n + 1) (skip_whitespace a) v)
              t)
      → Reach (scan_loop callback (suc fuel) f n (c ∷ b) u) t
  round_at fuel f n u c b {key} {r} {a} {t} e child after = round_open fuel f n u c b (
      subst (λ o. Reach (scan_member callback (scan_loop callback fuel) f n u o) t) (sym e)
        (member_at fuel f n u key r {a = a} child after))

  after_close :
      (loop : Frame → ℕ → Bytes → U → Scan U) (f : Frame) (n : ℕ) (v : U) (t : Bytes)
      → Reach (after_child callback loop f n (close_mark f.kind ∷ t) v) t
  unfolding after_child
  after_close loop f n v t =
      let p : (close_mark f.kind == close_mark f.kind) ≡ true = (==_iff _ _).1 refl in
      rw p (Reach-close callback polite f n (close_mark f.kind ∷ t) t v)

  after_comma :
      (loop : Frame → ℕ → Bytes → U → Scan U) (f : Frame) (n : ℕ) (v : U) (q : Bytes) {t : Bytes}
      → Reach (next_element callback loop f n (skip_whitespace q) v) t
      → Reach (after_child callback loop f n (b',' ∷ q) v) t
  unfolding after_child
  after_comma loop f n v q h =
      let p : (b',' == close_mark f.kind) ≡ false = comma_other f.kind in rw p h

  next_at :
      (loop : Frame → ℕ → Bytes → U → Scan U) (f : Frame) (n c : ℕ) (r : Bytes) (v : U) {t : Bytes}
      → (c == close_mark f.kind) ≡ false
      → Reach (loop f n (c ∷ r) v) t
      → Reach (next_element callback loop f n (c ∷ r) v) t
  unfolding next_element
  next_at loop f n c r v p h = rw p h

  pub Reach-child :
      (loop : Frame → ℕ → Bytes → U → Scan U) (f : Frame) (key : Option Slice) (u : U) (d : ℕ)
      {s t : Bytes}
      → f.depth ≡ d
      → d < max_nesting
      → Delimited t
      → Derives value_part (d + 1) s t
      → ((emit : Bool) → Reach (scan_start callback loop key emit (d + 1) s u) t)
      → Reach (scan_child callback loop f key s u) t
  Reach-child loop f key u d {t = t} e deep h (primitive {s = s} x) k =
      let (c, r, head, start) = primitive_head x in
      let y : IsPrimitive (c ∷ r) t = subst (λ z. IsPrimitive z t) head x in
      let emit = f.emit && is_enter f.action in
      subst (λ z. Reach (scan_child callback loop f key z u) t) (sym head)
        (child_primitive loop f key u c r (rw e deep) start
          (Reach-primitive callback polite key emit u y h))
  Reach-child loop f key u d {t = t} e deep h (container {k = kind} {s = s} x) k =
      let emit = f.emit && is_enter f.action in
      let (space, _) = solid_cases (open_mark kind) kind (open_solid kind) in
      child_container loop f key u kind s (rw e deep) (
        Reach-value callback polite loop key emit (f.depth + 1) (open_mark kind) s
          (open_mark kind ∷ s) u (omega (arith, e, deep)) (skip_to (open_mark kind) s space here)
          (rw e (k emit)))

  pub Reach-round :
      (fuel : ℕ) (f : Frame) (n : ℕ) (u : U) {s : Bytes} {key : Option Slice} {r a t : Bytes}
      → Headed is_solid s
      → member_key f.kind s ≡ some (key, r)
      → Reach (scan_child callback (scan_loop callback fuel) f key r u) a
      → ((v : U)
          → Reach
              (after_child callback (scan_loop callback fuel) f (n + 1) (skip_whitespace a) v)
              t)
      → Reach (scan_loop callback (suc fuel) f n s u) t
  Reach-round fuel f n u {s} {key} {r} {a} {t} (c, b, head, _) e child after =
      subst (λ z. Reach (scan_loop callback (suc fuel) f n z u) t) (sym head)
        (round_at fuel f n u c b {key = key} {r = r} {a = a} {t = t} (rw head at e) child after)

  -- Behind the last element, and behind another.
  pub Reach-last :
      (loop : Frame → ℕ → Bytes → U → Scan U) (f : Frame) (n : ℕ) (v : U) {a t : Bytes}
      → Spaces a (close_mark f.kind ∷ t)
      → Reach (after_child callback loop f n (skip_whitespace a) v) t
  Reach-last loop f n v {a} {t} x =
      let e = skip_to (close_mark f.kind) t (close_spaceless f.kind) x in
      subst (λ z. Reach (after_child callback loop f n z v) t) (sym e) (after_close loop f n v t)

  pub Reach-next :
      (loop : Frame → ℕ → Bytes → U → Scan U) (f : Frame) (n : ℕ) (v : U) {a q p t : Bytes}
      → Spaces a (b',' ∷ q)
      → Spaces q p
      → Headed is_solid p
      → Reach (loop f n p v) t
      → Reach (after_child callback loop f n (skip_whitespace a) v) t
  unfolding is_whitespace
  Reach-next loop f n v {a} {q} {p} {t} x y (c, r, head, solid) h =
      let e : skip_whitespace a ≡ b',' ∷ q = skip_to b',' q refl x in
      let (plain, apart) = solid_cases c f.kind solid in
      let next : skip_whitespace q ≡ c ∷ r = skip_to c r plain (subst (Spaces q) head y) in
      let later : Reach (loop f n (c ∷ r) v) t = subst (λ z. Reach (loop f n z v) t) head h in
      subst (λ z. Reach (after_child callback loop f n z v) t) (sym e)
        (after_comma loop f n v q (
          subst (λ z. Reach (next_element callback loop f n z v) t) (sym next)
            (next_at loop f n c r v apart later)))
