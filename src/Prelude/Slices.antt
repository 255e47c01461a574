-- ===== src/Prelude/Slices.antt =====
-- Slices of a byte vector, writes into it, and vectors that are written piece by piece.
use Prim.Native.Nat.{ℕ, ◌+◌, ◌-◌, ◌≤◌}
use mathlib.Core.Path.{◌≡◌, refl, sym, ap, ap₂, ◌∙◌}
use mathlib.Core.List.{List, [], ◌∷◌, ◌++◌, append_assoc, append-nil}
use native.Mathlib.Omega.{arith}
use tzap.Prelude.Lists.{
  length, take, drop, replicate, length-append, length-take, length-drop, length-replicate,
  take-append-drop, take_all, take_append, drop_append, drop_all, drop-drop, take-append,
  drop-append, take-replicate, drop-replicate, take-take,
}

-- `&bytes[from..to]` of a vector that reaches to `to`.
abbrev pub slice : List ℕ → ℕ → ℕ → List ℕ
slice bytes from to = take (to - from) (drop from bytes)

-- `[0u8; n]`
abbrev pub zeros : ℕ → List ℕ
zeros n = replicate n 0

pub length-zeros : (n : ℕ) → length (zeros n) ≡ n
length-zeros n = length-replicate n 0

pub take-zeros : (n m : ℕ) → n ≤ m → take n (zeros m) ≡ zeros n
take-zeros n m h = take-replicate n m 0 h

pub drop-zeros : (n m : ℕ) → drop n (zeros m) ≡ zeros (m - n)
drop-zeros n m = drop-replicate n m 0

-- `bytes[offset..offset + n].copy_from_slice(&piece)`, where the piece has `n` bytes.
unfoldable pub copy_at : List ℕ → ℕ → ℕ → List ℕ → List ℕ
copy_at bytes offset n piece = take offset bytes ++ (piece ++ drop (offset + n) bytes)

-- An offset, a number of bytes, and that many bytes.
abbrev pub Piece : Type 0
Piece = ℕ × ℕ × List ℕ

-- A sequence of such statements, in order.
unfoldable pub copy_all : List ℕ → List Piece → List ℕ
copy_all bytes [] = bytes
copy_all bytes ((offset, n, piece) ∷ rest) = copy_all (copy_at bytes offset n piece) rest

-- The pieces have their lengths and stand in order, none overlaps the next, and all lie between
-- `c` and `end`.
abbrev pub Fits : ℕ → List Piece → ℕ → Type 0
Fits c [] end = c ≤ end
Fits c ((o, n, s) ∷ ws) end = (c ≤ o) × (length s ≡ n) × Fits (o + n) ws end

-- The vector holds each piece at its offset, and zeros between the pieces.
abbrev pub Holds : List ℕ → ℕ → List Piece → ℕ → Type 0
Holds bytes c [] end = slice bytes c end ≡ zeros (end - c)
Holds bytes c ((o, n, s) ∷ ws) end =
    (slice bytes c o ≡ zeros (o - c)) × (take n (drop o bytes) ≡ s) × Holds bytes (o + n) ws end

-- The pieces and the zeros between them, one after the other.
unfoldable pub render : ℕ → List Piece → ℕ → List ℕ
render c [] end = zeros (end - c)
render c ((o, n, s) ∷ ws) end = zeros (o - c) ++ (s ++ render (o + n) ws end)

Fits-le : (c : ℕ) (ws : List Piece) (end : ℕ) → Fits c ws end → c ≤ end
Fits-le c [] end h = h
Fits-le c ((o, n, s) ∷ ws) end (h, l, k) = omega (arith, Fits-le (o + n) ws end k)

pub length-render :
    (c : ℕ) (ws : List Piece) (end : ℕ) → Fits c ws end → length (render c ws end) ≡ end - c
unfolding render
length-render c [] end h = length-zeros (end - c)
length-render c ((o, n, s) ∷ ws) end (h, l, k) = omega (
  arith,
  length-append (zeros (o - c)) (s ++ render (o + n) ws end),
  length-append s (render (o + n) ws end),
  length-zeros (o - c),
  length-render (o + n) ws end k,
  Fits-le (o + n) ws end k,
)

-- One write into the part that is still zero.
copy_at-zeros :
    (pre : List ℕ) (c o n : ℕ) (s : List ℕ) (end : ℕ)
    → length pre ≡ c
    → c ≤ o
    → o ≤ end
    → copy_at (pre ++ zeros (end - c)) o n s
      ≡ (pre ++ (zeros (o - c) ++ s)) ++ zeros (end - (o + n))
unfolding copy_at
copy_at-zeros pre c o n s end d h k =
    let e : end - c - (o + n - length pre) ≡ end - (o + n) = omega arith in
    let f : o - length pre ≡ o - c = omega arith in
    rw (take_append o pre (zeros (end - c)), take_all o pre (omega arith), f)
      (rw (take-zeros (o - c) (end - c) (omega arith)) (
        rw (drop_append (o + n) pre (zeros (end - c)))
          (rw (drop_all (o + n) pre (omega arith), drop-zeros, e) (simp append_assoc))))

length-piece :
    (pre : List ℕ) (c o n : ℕ) (s : List ℕ)
    → length pre ≡ c
    → c ≤ o
    → length s ≡ n
    → length (pre ++ (zeros (o - c) ++ s)) ≡ o + n
length-piece pre c o n s d h l = omega (
  arith,
  length-append pre (zeros (o - c) ++ s),
  length-append (zeros (o - c)) s,
  length-zeros (o - c),
)

-- Pieces that fit are laid side by side over the zeros.
copy_all-render :
    (pre : List ℕ) (c : ℕ) (ws : List Piece) (end : ℕ)
    → length pre ≡ c
    → Fits c ws end
    → copy_all (pre ++ zeros (end - c)) ws ≡ pre ++ render c ws end
unfolding copy_all render
copy_all-render pre c [] end d h = refl
copy_all-render pre c ((o, n, s) ∷ ws) end d (h, l, k) =
    rw (copy_at-zeros pre c o n s end d h (omega (arith, Fits-le (o + n) ws end k))) (
      copy_all-render (pre ++ (zeros (o - c) ++ s)) (o + n) ws end (length-piece pre c o n s d h l)
        k
      ∙ simp append_assoc)

-- What is rendered from `c` on is held from `c` on.
pub render-Holds :
    (pre : List ℕ) (c : ℕ) (ws : List Piece) (end : ℕ)
    → length pre ≡ c
    → Fits c ws end
    → Holds (pre ++ render c ws end) c ws end
unfolding render
render-Holds pre c [] end d h =
    rw (drop-append c pre (zeros (end - c)) d) (take-zeros (end - c) (end - c) (omega arith))
render-Holds pre c ((o, n, s) ∷ ws) end d (h, l, k) =
    let rest = render (o + n) ws end in
    let gap : take (o - c) (drop c (pre ++ (zeros (o - c) ++ (s ++ rest)))) ≡ zeros (o - c) =
      rw (drop-append c pre (zeros (o - c) ++ (s ++ rest)) d)
        (take-append (o - c) (zeros (o - c)) (s ++ rest) (length-zeros (o - c))) in
    let front = pre ++ zeros (o - c) in
    let whole : pre ++ (zeros (o - c) ++ (s ++ rest)) ≡ front ++ (s ++ rest) = simp append_assoc in
    let lf : length front ≡ o =
      omega (arith, length-append pre (zeros (o - c)), length-zeros (o - c)) in
    let piece : take n (drop o (pre ++ (zeros (o - c) ++ (s ++ rest)))) ≡ s =
      rw (whole, drop-append o front (s ++ rest) lf) (take-append n s rest l) in
    let whole' : (pre ++ (zeros (o - c) ++ s)) ++ rest ≡ pre ++ (zeros (o - c) ++ (s ++ rest)) =
      simp append_assoc in
    (
      gap,
      piece,
      rw whole' at (
          render-Holds (pre ++ (zeros (o - c) ++ s)) (o + n) ws end (length-piece pre c o n s d h l)
            k),
    )

-- A vector that holds the pieces is what is rendered.
pub Holds-render :
    (bytes : List ℕ) (c : ℕ) (ws : List Piece) (end : ℕ)
    → length bytes ≡ end
    → Fits c ws end
    → Holds bytes c ws end
    → drop c bytes ≡ render c ws end
unfolding render
Holds-render bytes c [] end e h k =
    sym (take_all (end - c) (drop c bytes) (omega (arith, length-drop c bytes))) ∙ k
Holds-render bytes c ((o, n, s) ∷ ws) end e (h, l, j) (gap, piece, k) =
    let rest = Holds-render bytes (o + n) ws end e j k in
    let a : c + (o - c) ≡ o = omega arith in
    let first : drop c bytes ≡ take (o - c) (drop c bytes) ++ drop o bytes =
      sym (take-append-drop (o - c) (drop c bytes))
      ∙ ap (λ ys. take (o - c) (drop c bytes) ++ ys) (drop-drop (o - c) c bytes ∙ rw a) in
    let second : drop o bytes ≡ take n (drop o bytes) ++ drop (o + n) bytes =
      sym (take-append-drop n (drop o bytes))
      ∙ ap (λ ys. take n (drop o bytes) ++ ys) (drop-drop n o bytes) in
    first ∙ ap₂ (λ xs ys. xs ++ ys) gap (second ∙ ap₂ (λ xs ys. xs ++ ys) piece rest)

pub copy_all-eq-render :
    (ws : List Piece) (end : ℕ) → Fits 0 ws end → copy_all (zeros end) ws ≡ render 0 ws end
copy_all-eq-render ws end h =
    let e : end - 0 ≡ end = omega arith in
    ap (λ k. copy_all (zeros k) ws) (sym e) ∙ copy_all-render [] 0 ws end refl h

-- The vector that the writes make from zeros holds every piece, and zeros between them.
pub copy_all-Holds :
    (ws : List Piece) (end : ℕ) → Fits 0 ws end → Holds (copy_all (zeros end) ws) 0 ws end
copy_all-Holds ws end h = rw (copy_all-eq-render ws end h) (render-Holds [] 0 ws end refl h)

pub length-copy_all :
    (ws : List Piece) (end : ℕ) → Fits 0 ws end → length (copy_all (zeros end) ws) ≡ end
length-copy_all ws end h =
    rw (copy_all-eq-render ws end h) (omega (arith, length-render 0 ws end h))

-- There is only one such vector.
pub Holds-copy_all :
    (bytes : List ℕ) (ws : List Piece) (end : ℕ)
    → length bytes ≡ end
    → Fits 0 ws end
    → Holds bytes 0 ws end
    → bytes ≡ copy_all (zeros end) ws
Holds-copy_all bytes ws end e h k =
    Holds-render bytes 0 ws end e h k ∙ sym (copy_all-eq-render ws end h)

-- A write behind the first `k` bytes leaves them alone.
pub take-copy_at :
    (bytes : List ℕ) (k o n : ℕ) (s : List ℕ)
    → k ≤ o
    → o ≤ length bytes
    → take k (copy_at bytes o n s) ≡ take k bytes
unfolding copy_at
take-copy_at bytes k o n s h l =
    let e : k - length (take o bytes) ≡ 0 = omega (arith, length-take o bytes) in
    rw (take_append k (take o bytes) (s ++ drop (o + n) bytes), e, take-take k o bytes h)
      (append-nil (take k bytes))

pub copy_all-append :
    (bytes : List ℕ) (ws : List Piece) (o n : ℕ) (s : List ℕ)
    → copy_all bytes (ws ++ ((o, n, s) ∷ [])) ≡ copy_at (copy_all bytes ws) o n s
unfolding copy_all
copy_all-append bytes [] o n s = refl
copy_all-append bytes ((p, m, t) ∷ ws) o n s = copy_all-append (copy_at bytes p m t) ws o n s
