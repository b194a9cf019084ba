-- ===== src/Json/Message/Trim.antt =====
-- Trimming a text (src/broker/ProviderJson.cpp: `Trim`) does not change what object it holds.
use dot1xcp.Base.{◌≡◌, refl, sym, ap, subst, ◌∙◌, List, [], ◌∷◌, ◌++◌, reverse, append_assoc, Bytes}
use mathlib.Core.List.{reverse-cons, reverse-append, reverse-reverse}
use dot1xcp.Json.Chars.{skip_ws, trim}
use dot1xcp.Json.Message.Object.{
  Ws, Quoted, quoted, Member, member, Body, close, last, more, Object, object,
}
use dot1xcp.Json.Message.Spaces.{Ws-reverse, Ws-append, skip_to, trim-Ws}

-- What a piece consumes does not depend on what follows it.
abbrev Prefix : Bytes → Bytes → (Bytes → Bytes → Type 0) → Type 0
Prefix s rest P = (u : Bytes) × (s ≡ u ++ rest) × ((r : Bytes) → P (u ++ r) r)

Quoted-Prefix : {s out rest : Bytes} → Quoted s out rest → Prefix s rest (λ t r. Quoted t out r)
Quoted-Prefix {rest} (quoted {raw} g t e) =
    (b'"' ∷ (raw ++ (b'"' ∷ [])), rw e (simp append_assoc), λ r. quoted g t (simp append_assoc))

Member-Prefix :
    {s key value rest : Bytes}
    → Member s key value rest
    → Prefix s rest (λ t r. Member t key value r)
Member-Prefix {key} {rest} (member {s2} w1 w2 q a1 a2 p) =
    let (u1, e1, f1) = Quoted-Prefix q in
    let (u2, e2, f2) = Quoted-Prefix p in
    let between = λ (r : Bytes). w1 ++ (b':' ∷ (w2 ++ (u2 ++ r))) in
    (
      u1 ++ (w1 ++ (b':' ∷ (w2 ++ u2))),
      e1 ∙ ap (λ t. u1 ++ (w1 ++ (b':' ∷ (w2 ++ t)))) e2 ∙ simp append_assoc,
      λ r.
          member w1 w2 (subst (λ t. Quoted t key (between r)) (simp append_assoc) (f1 (between r)))
            a1 a2 (f2 r),
    )

-- The part of a body up to its closing brace.
Body-Prefix :
    {s rest : Bytes} {kvs : List (Bytes × Bytes)}
    → Body s kvs rest
    → (u : Bytes) × (s ≡ u ++ (b'}' ∷ rest)) × ((r : Bytes) → Body (u ++ (b'}' ∷ r)) kvs r)
Body-Prefix (close w a e) = (w, e, λ r. close w a refl)
Body-Prefix (last {rest} w w' a g a' e) =
    let (u, eu, f) = Member-Prefix g in
    (
      w ++ (u ++ w'),
      e ∙ ap (λ t. w ++ t) eu ∙ simp append_assoc,
      λ r. last w w' a (f (w' ++ (b'}' ∷ r))) a' (simp append_assoc),
    )
Body-Prefix (more w w' a g a' e body) =
    let (u, eu, f) = Member-Prefix g in
    let (v, ev, k) = Body-Prefix body in
    (
      w ++ (u ++ (w' ++ (b',' ∷ v))),
      e ∙ ap (λ t. w ++ t) eu ∙ ap (λ t. w ++ (u ++ (w' ++ (b',' ∷ t)))) ev ∙ simp append_assoc,
      λ r. more w w' a (f (w' ++ (b',' ∷ (v ++ (b'}' ∷ r))))) a' (simp append_assoc) (k r),
    )

trim_braces :
    (w u w' : Bytes)
    → Ws w
    → Ws w'
    → trim (w ++ (b'{' ∷ (u ++ (b'}' ∷ w')))) ≡ b'{' ∷ (u ++ (b'}' ∷ []))
unfolding trim
trim_braces w u w' a a' =
    let q = b'{' ∷ u in
    let back : reverse (q ++ (b'}' ∷ w')) ≡ reverse w' ++ (b'}' ∷ reverse q) =
      reverse-append q (b'}' ∷ w')
      ∙ ap (λ t. t ++ reverse q) (reverse-cons b'}' w')
      ∙ simp append_assoc in
    let front : skip_ws (w ++ (q ++ (b'}' ∷ w'))) ≡ q ++ (b'}' ∷ w') =
      skip_to w b'{' (u ++ (b'}' ∷ w')) a refl in
    ap (λ t. reverse (skip_ws (reverse t))) front
    ∙ ap (λ t. reverse (skip_ws t)) back
    ∙ ap reverse (skip_to (reverse w') b'}' (reverse q) (Ws-reverse w' a') refl)
    ∙ reverse-cons b'}' (reverse q)
    ∙ ap (λ t. t ++ (b'}' ∷ [])) (reverse-reverse q)

pub Object-trim : {s : Bytes} {kvs : List (Bytes × Bytes)} → Object s kvs → Object (trim s) kvs
Object-trim {kvs} (object {w'} w a e body b) =
    let (u, eu, f) = Body-Prefix body in
    let whole = ap trim (e ∙ ap (λ t. w ++ (b'{' ∷ t)) eu) ∙ trim_braces w u w' a b in
    subst (λ t. Object t kvs) (sym whole) (object [] tt refl (f []) tt)

pub trim-Object : (s : Bytes) {kvs : List (Bytes × Bytes)} → Object (trim s) kvs → Object s kvs
trim-Object s (object {w'} w a e body b) =
    let (v, v', c, c', es) = trim-Ws s in
    let (u, eu, f) = Body-Prefix body in
    object (v ++ w) (Ws-append v w c a)
      (es ∙ ap (λ t. v ++ (t ++ v')) (e ∙ ap (λ t. w ++ (b'{' ∷ t)) eu) ∙ simp append_assoc)
      (f (w' ++ v')) (Ws-append w' v' b c')
