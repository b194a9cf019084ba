-- ===== src/Environment/Entries.antt =====
-- What the broker reads in its environment (src/broker/ProviderPipe.cpp).
use dot1xcp.Base.{
  ℕ, zero, suc, ◌≤◌, ◌<◌, ◌≡◌, refl, sym, ap, ◌∙◌, ◌≢◌, Bool, true, false, some, List, [], ◌∷◌,
  ◌++◌, append_assoc, arith, ◌==◌, if◌then◌else◌, length, is_empty, length-append, Bytes, All,
}
use dot1xcp.Environment.{starts_with, cp_pipe, cut, copy_entries, child_environment}

-- A string that can stand in a block: not empty, and without a zero.
abbrev pub IsEntry : Bytes → Type 0
IsEntry e = (is_empty e ≡ false) × All (λ c. c ≢ 0) e

-- The strings of a block, each with its zero, and the block with the zero that ends it.
abbrev pub entries : List Bytes → Bytes
entries [] = []
entries (e ∷ es) = e ++ (0 ∷ entries es)

abbrev pub block : List Bytes → Bytes
block es = entries es ++ (0 ∷ [])

-- The variables but for the pipe's, in their order.
abbrev pub others : List Bytes → List Bytes
others [] = []
others (e ∷ es) = if starts_with cp_pipe e then others es else e ∷ others es

entries-append : (es fs : List Bytes) → entries (es ++ fs) ≡ entries es ++ entries fs
entries-append [] fs = refl
entries-append (e ∷ es) fs =
    ap (λ x. e ++ (0 ∷ x)) (entries-append es fs)
    ∙ sym (append_assoc e (0 ∷ entries es) (entries fs))

cut-entry : (e rest : Bytes) → All (λ c. c ≢ 0) e → cut (e ++ (0 ∷ rest)) ≡ (e, rest)
unfolding cut
cut-entry [] rest n = refl
cut-entry (c ∷ e) rest n =
    let t : (c == 0) ≡ false = ground (arith, n.0) in
    rw t (ap (λ q. (c ∷ q.0, q.1)) (cut-entry e rest n.1))

-- One round at a string.
copy_entries-entry :
    (fuel c : ℕ) (e rest : Bytes)
    → All (λ x. x ≢ 0) (c ∷ e)
    → copy_entries (suc fuel) ((c ∷ e) ++ (0 ∷ rest)) ≡ (
        if starts_with cp_pipe (c ∷ e)
        then copy_entries fuel rest
        else (c ∷ e) ++ (0 ∷ copy_entries fuel rest))
unfolding copy_entries
copy_entries-entry fuel c e rest n =
    let t : (c == 0) ≡ false = ground (arith, n.0) in
    ap
      (λ q.
        if c == 0
        then []
        else if starts_with cp_pipe q.0
        then copy_entries fuel q.1
        else q.0 ++ (0 ∷ copy_entries fuel q.1))
      (cut-entry (c ∷ e) rest n)
    ∙ ap
        (λ b.
          if b
          then []
          else if starts_with cp_pipe (c ∷ e)
          then copy_entries fuel rest
          else (c ∷ e) ++ (0 ∷ copy_entries fuel rest))
        t

entries-if :
    (b : Bool) (e : Bytes) (es : List Bytes)
    → (if b then entries es else e ++ (0 ∷ entries es)) ≡ entries (if b then es else e ∷ es)
entries-if true e es = refl
entries-if false e es = refl

copy_entries-block :
    (fuel : ℕ) (es : List Bytes)
    → All IsEntry es
    → length es < fuel
    → copy_entries fuel (block es) ≡ entries (others es)
unfolding copy_entries cut
copy_entries-block zero es g enough = absurd (omega arith)
copy_entries-block (suc fuel) [] g enough = refl
copy_entries-block (suc fuel) ([] ∷ es) g enough = cc (g.0.0)
copy_entries-block (suc fuel) ((c ∷ e) ∷ es) g enough =
    let b = starts_with cp_pipe (c ∷ e) in
    let ih = copy_entries-block fuel es g.1 (omega (arith, enough)) in
    ap (copy_entries (suc fuel)) (append_assoc (c ∷ e) (0 ∷ entries es) (0 ∷ []))
    ∙ copy_entries-entry fuel c e (block es) g.0.1
    ∙ ap (λ x. if b then x else (c ∷ e) ++ (0 ∷ x)) ih
    ∙ entries-if b (c ∷ e) (others es)

-- A block has more units than strings.
length-entries : (es : List Bytes) → length es ≤ length (entries es)
length-entries [] = omega arith
length-entries (e ∷ es) = omega (arith, length-append e (0 ∷ entries es), length-entries es)

length-block : (es : List Bytes) → length es < length (block es)
length-block es = omega (arith, length-append (entries es) (0 ∷ []), length-entries es)

-- The variable at the end.
block-append :
    (es : List Bytes) (e : Bytes) → entries es ++ (e ++ (0 ∷ 0 ∷ [])) ≡ block (es ++ (e ∷ []))
block-append es e =
    ap (λ x. entries es ++ x) (sym (append_assoc e (0 ∷ []) (0 ∷ [])))
    ∙ sym (append_assoc (entries es) (e ++ (0 ∷ [])) (0 ∷ []))
    ∙ ap (λ x. x ++ (0 ∷ [])) (sym (entries-append es (e ∷ [])))

-- The broker's environment is the provider's, with the variables in their order, but without any that
-- is called CP_PIPE in whatever case, and with CP_PIPE set to the pipe's name at the end.
pub child_environment-block :
    (es : List Bytes) (pipe_name : Bytes)
    → All IsEntry es
    → child_environment (some (block es)) pipe_name
      ≡ some (block (others es ++ ((cp_pipe ++ pipe_name) ∷ [])))
unfolding child_environment
child_environment-block es pipe_name g =
    let copied = copy_entries-block (length (block es)) es g (length-block es) in
    ap some (
      ap (λ x. x ++ ((cp_pipe ++ pipe_name) ++ (0 ∷ 0 ∷ []))) copied
      ∙ block-append (others es) (cp_pipe ++ pipe_name))
