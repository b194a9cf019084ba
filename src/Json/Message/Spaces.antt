-- ===== src/Json/Message/Spaces.antt =====
-- White space in front and behind (src/broker/ProviderJson.cpp: `SkipWs`, `Trim`).
use dot1xcp.Base.{
  ℕ, ◌≡◌, refl, sym, ap, ◌∙◌, inl, inr, false, [], ◌∷◌, ◌++◌, reverse, arith, Bool-cases, Bytes,
}
use mathlib.Core.List.{reverse-cons, reverse-append, reverse-reverse}
use dot1xcp.Json.Chars.{is_ws, skip_ws, trim}
use dot1xcp.Json.Message.Object.{Ws}

-- `SkipWs` splits off the white space in front.
pub skip_ws-Ws : (s : Bytes) → (w : Bytes) × Ws w × (s ≡ w ++ skip_ws s)
unfolding skip_ws
skip_ws-Ws [] = ([], tt, refl)
skip_ws-Ws (c ∷ s) = elim (Bool-cases (is_ws c)) [
  | inl e ↦ let (w, a, es) = skip_ws-Ws s in (c ∷ w, (ground arith, a), rw e (ap (◌∷◌ c) es))
  | inr e ↦ ([], tt, rw e)
]

pub Ws-skip_ws : (w s : Bytes) → Ws w → skip_ws (w ++ s) ≡ skip_ws s
unfolding skip_ws
Ws-skip_ws [] s a = refl
Ws-skip_ws (c ∷ w) s a = ground (arith, Ws-skip_ws w s a.1)

-- What `SkipWs` leaves begins with no white space, so skipping again changes nothing.
pub skip_ws-cons : (c : ℕ) (s : Bytes) → is_ws c ≡ false → skip_ws (c ∷ s) ≡ c ∷ s
unfolding skip_ws
skip_ws-cons c s h = rw h

pub Ws-append : (u v : Bytes) → Ws u → Ws v → Ws (u ++ v)
Ws-append [] v a b = b
Ws-append (c ∷ u) v a b = (a.0, Ws-append u v a.1 b)

pub Ws-reverse : (w : Bytes) → Ws w → Ws (reverse w)
Ws-reverse [] a = tt
Ws-reverse (c ∷ w) a =
    rw (reverse-cons c w) (Ws-append (reverse w) (c ∷ []) (Ws-reverse w a.1) (a.0, tt))

-- Behind white space and at a character that is none, `SkipWs` stops.
pub skip_to :
    (w : Bytes) (c : ℕ) (s : Bytes) → Ws w → is_ws c ≡ false → skip_ws (w ++ (c ∷ s)) ≡ c ∷ s
skip_to w c s a h = Ws-skip_ws w (c ∷ s) a ∙ skip_ws-cons c s h

-- `Trim` takes white space off both ends.
pub trim-Ws : (s : Bytes) → (w w' : Bytes) × Ws w × Ws w' × (s ≡ w ++ (trim s ++ w'))
unfolding trim
trim-Ws s =
    let (w, a, e) = skip_ws-Ws s in
    let (v, b, d) = skip_ws-Ws (reverse (skip_ws s)) in
    let back : skip_ws s ≡ trim s ++ reverse v =
      sym (reverse-reverse (skip_ws s))
      ∙ ap reverse d
      ∙ reverse-append v (skip_ws (reverse (skip_ws s))) in
    (w, reverse v, a, Ws-reverse v b, e ∙ ap (λ t. w ++ t) back)
