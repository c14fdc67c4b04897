-- ===== src/Parse/Complete.antt =====
-- The range parser of kason.c accepts every JSON text, where its callback answers as kason.h asks.
use kason.Base.{
  ℕ, zero, suc, ◌+◌, ◌≤◌, ◌<◌, Bool, Option, none, some, ◌∷◌, Bytes, length, ◌≡◌, refl, sym, ◌∙◌,
  subst, arith,
}
use kason.Chars.{is_whitespace}
use kason.Parse.Tokens.{Slice, skip_whitespace}
use kason.Parse.Events.{Callback}
use kason.Parse.Scan.{member_key, open_container, scan_start, scan_child, scan_loop}
use kason.Parse.Frame.{
  max_nesting, Kind, object_kind, array_kind, open_mark, close_mark, Scan, Frame,
}
use kason.Parse.Grammar.{
  Spaces, Part, value_part, contents, elements, element, Derives, primitive, container, empty,
  filled, last, next, item, pair,
}
use kason.Parse.Primitive.{Delimited}
use kason.Parse.Lengths.{length-Spaces, length-member_key, Shorter-Derives}
use kason.Parse.Heads.{
  Headed, is_solid, value_head, element_head, elements_head, skip_to, solid_cases, close_delimits,
  close_spaceless, Delimited-Spaces, object_member,
}
use kason.Parse.Reach.{
  Polite, Reach, Reach-start-primitive, Reach-start-container, Reach-container, Reach-empty,
  Reach-filled,
}
use kason.Parse.Rounds.{Reach-child, Reach-round, Reach-last, Reach-next}

module _ {U : Type 0} (callback : Option (Callback U)) (polite : Polite callback) where
  -- What the scan does on each part of a text, on fuel for every byte.
  abbrev pub Complete : Part → ℕ → Bytes → Bytes → Type 0
  Complete value_part d s t =
      (fuel : ℕ) (key : Option Slice) (emit : Bool) (u : U)
      → d ≤ max_nesting
      → Delimited t
      → length s ≤ fuel
      → Reach (scan_start callback (scan_loop callback fuel) key emit d s u) t
  Complete (contents k) d s t =
      (fuel : ℕ) (f : Frame) (u : U)
      → f.kind ≡ k
      → f.depth ≡ d
      → length s < fuel
      → Reach (open_container callback (scan_loop callback fuel) f (skip_whitespace s) u) t
  Complete (elements k) d s t =
      (fuel : ℕ) (f : Frame) (n : ℕ) (u : U)
      → f.kind ≡ k
      → f.depth ≡ d
      → d < max_nesting
      → length s < fuel
      → Reach (scan_loop callback fuel f n s u) t
  Complete (element k) d s t =
      (fuel : ℕ) (f : Frame) (u : U)
      → f.depth ≡ d
      → d < max_nesting
      → Delimited t
      → length s ≤ fuel
      → (key : Option Slice) × (r : Bytes) × (member_key k s ≡ some (key, r))
        × Reach (scan_child callback (scan_loop callback fuel) f key r u) t

  close_later :
      (loop : Frame → ℕ → Bytes → U → Scan U) (f : Frame) (u : U) (k : Kind) {s t : Bytes}
      → f.kind ≡ k
      → Spaces s (close_mark k ∷ t)
      → Reach (open_container callback loop f (skip_whitespace s) u) t
  close_later loop f u k {s} {t} e x =
      let y : Spaces s (close_mark f.kind ∷ t) = rw e x in
      let skipped = skip_to (close_mark f.kind) t (close_spaceless f.kind) y in
      subst (λ z. Reach (open_container callback loop f z u) t) (sym skipped)
        (Reach-empty callback polite loop f t u)

  fill_later :
      (loop : Frame → ℕ → Bytes → U → Scan U) (f : Frame) (u : U) {s r t : Bytes}
      → Spaces s r
      → Headed is_solid r
      → Reach (loop f 0 r u) t
      → Reach (open_container callback loop f (skip_whitespace s) u) t
  fill_later loop f u {s} {r} {t} x (c, b, head, solid) h =
      let (plain, apart) = solid_cases c f.kind solid in
      let skipped = skip_to c b plain (subst (Spaces s) head x) in
      subst (λ z. Reach (open_container callback loop f z u) t) (sym skipped)
        (Reach-filled callback polite loop f c b u apart
          (subst (λ z. Reach (loop f 0 z u) t) head h))

  -- What an element does, on less fuel than the loop.
  abbrev Element : Kind → Frame → U → Bytes → Bytes → Type 0
  Element k f u s r =
      (less : ℕ)
      → length s ≤ less
      → (key : Option Slice) × (x : Bytes) × (member_key k s ≡ some (key, x))
        × Reach (scan_child callback (scan_loop callback less) f key x u) r

  last_step :
      (fuel : ℕ) (f : Frame) (n : ℕ) (u : U) {k : Kind} {s r t : Bytes}
      → f.kind ≡ k
      → Spaces r (close_mark k ∷ t)
      → Headed is_solid s
      → length s < fuel
      → Element k f u s r
      → Reach (scan_loop callback fuel f n s u) t
  last_step zero f n u same y head enough h = elim enough [ ]
  last_step (suc fuel) f n u {k} {s} {r} {t} same y head enough h =
      let (key, x, read, child) = h fuel (omega (arith, enough)) in
      let close : Spaces r (close_mark f.kind ∷ t) = rw same y in
      Reach-round callback polite fuel f n u {key = key} {r = x} {a = r} {t = t} head (rw same read)
        child (λ v. Reach-last callback polite (scan_loop callback fuel) f (n + 1) v close)

  next_step :
      (fuel : ℕ) (f : Frame) (n : ℕ) (u : U) {k : Kind} {s r q p t : Bytes}
      → f.kind ≡ k
      → Spaces r (b',' ∷ q)
      → Spaces q p
      → Headed is_solid s
      → Headed is_solid p
      → length s < fuel
      → Element k f u s r
      → ((less m : ℕ) (v : U) → length p < less → Reach (scan_loop callback less f m p v) t)
      → length p < length s
      → Reach (scan_loop callback fuel f n s u) t
  next_step zero f n u same y z head later enough h rest short = elim enough [ ]
  next_step (suc fuel) f n u {k} {s} {r} {q} {p} {t} same y z head later enough h rest short =
      let (key, x, read, child) = h fuel (omega (arith, enough)) in
      Reach-round callback polite fuel f n u {key = key} {r = x} {a = r} {t = t} head (rw same read)
        child
        (λ v.
          Reach-next callback polite (scan_loop callback fuel) f (n + 1) v y z later
            (rest fuel (n + 1) v (omega (arith, enough, short))))

  skip_to_head : {q p : Bytes} → Spaces q p → Headed is_solid p → skip_whitespace q ≡ p
  skip_to_head {q} {p} x (c, r, head, solid) =
      let (plain, _) = solid_cases c array_kind solid in
      skip_to c r plain (subst (Spaces q) head x) ∙ sym head

  pub complete : {p : Part} {d : ℕ} {s t : Bytes} → Derives p d s t → Complete p d s t
  unfolding is_whitespace
  complete (primitive x) = λ fuel key emit u deep h enough.
      Reach-start-primitive callback polite (scan_loop callback fuel) key emit _ u x h
  complete (container {k} {d} {s} {t} x) = λ fuel key emit u deep h enough.
      Reach-start-container callback polite (scan_loop callback fuel) k key emit d s u (
        Reach-container callback polite (scan_loop callback fuel) k key emit d (open_mark k) s u
          (λ f v same depth. complete x fuel f v same depth (omega (arith, enough))))
  complete (empty {k} {d} {s} {t} x) =
      λ fuel f u same depth enough. close_later (scan_loop callback fuel) f u k same x
  complete (filled {k} {d} {s} {r} {t} deep x y) = λ fuel f u same depth enough.
      fill_later (scan_loop callback fuel) f u x (elements_head y)
        (complete y fuel f 0 u same depth deep (omega (arith, enough, length-Spaces x)))
  complete (last {k} {d} {s} {r} {t} x y) = λ fuel f n u same depth deep enough.
      last_step fuel f n u same y (element_head x) enough (λ less room.
        complete x less f u depth deep (Delimited-Spaces (close_mark k) (close_delimits k) y) room)
  complete (next {k} {d} {s} {r} {q} {p} {t} x y z w) = λ fuel f n u same depth deep enough.
      next_step fuel f n u same y z (element_head x) (elements_head w) enough
        (λ less room. complete x less f u depth deep (Delimited-Spaces b',' refl y) room)
        (λ less m v room. complete w less f m v same depth deep room)
        (omega (arith, Shorter-Derives x, length-Spaces y, length-Spaces z))
  complete (item {d} {s} {t} x) = λ fuel f u depth deep h enough. (
    none,
    s,
    unfold member_key in refl,
    Reach-child callback polite (scan_loop callback fuel) f none u d depth deep h x
        (λ emit. complete x fuel none emit u (omega (arith, deep)) h enough),
  )
  complete (pair {d} {s} {r} {q} {p} {t} x y z w) = λ fuel f u depth deep h enough.
      let (key, read) = object_member x y (skip_to_head z (value_head w)) in
      (
        key,
        p,
        read,
        Reach-child callback polite (scan_loop callback fuel) f key u d depth deep h w (λ emit.
            complete w fuel key emit u (omega (arith, deep)) h
              (omega (arith, enough, length-member_key object_kind s {k = key} {t = p} read))),
      )
