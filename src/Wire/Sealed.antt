-- ===== src/Wire/Sealed.antt =====
-- Vectors that end in a checksum over all that stands before it.
use tzap.Prelude.{ℕ, ◌+◌, ◌≤◌, ◌≡◌, sym, ap, ◌∙◌, List, [], ◌∷◌, ◌++◌, arith, length, take}
use tzap.Prelude.Slices.{
  Piece, copy_all, zeros, Fits, Holds, copy_all-Holds, length-copy_all, copy_all-append,
  Holds-copy_all, take-copy_at,
}
use tzap.Prelude.Bytes.{to_le}
use tzap.Wire.Fields.{write_u32, write_crc}

Fits-end : (c : ℕ) (ws : List Piece) (end : ℕ) → Fits c ws end → c ≤ end
Fits-end c [] end h = h
Fits-end c ((o, n, s) ∷ ws) end (h, l, k) = omega (arith, Fits-end (o + n) ws end k)

Fits-front : (c : ℕ) (ws more : List Piece) (end : ℕ) → Fits c (ws ++ more) end → Fits c ws end
Fits-front c [] more end h = Fits-end c more end h
Fits-front c ((o, n, s) ∷ ws) more end (h, l, k) = (h, l, Fits-front (o + n) ws more end k)

module _ (crc32c : List ℕ → ℕ) (ws : List Piece) (o end : ℕ) where
  -- The pieces with a checksum at the offset `o`.
  abbrev pub with_crc : ℕ → List Piece
  with_crc crc = ws ++ (write_u32 o crc ∷ [])

  -- What is written piece by piece and sealed.
  abbrev pub sealed : List ℕ
  sealed = write_crc crc32c (copy_all (zeros end) ws) o

  module _ (reach : o ≤ end) (fits : (crc : ℕ) → Fits 0 (with_crc crc) end) where
    front_crc :
        (crc : ℕ) → take o (copy_all (zeros end) (with_crc crc)) ≡ take o (copy_all (zeros end) ws)
    front_crc crc =
        ap (take o) (copy_all-append (zeros end) ws o 4 (to_le 4 crc))
        ∙ take-copy_at (copy_all (zeros end) ws) o o 4 (to_le 4 crc) (omega arith)
            (omega (arith, length-copy_all ws end (Fits-front 0 ws _ end (fits crc))))

    sealed-eq : sealed ≡ copy_all (zeros end) (with_crc (crc32c (take o (copy_all (zeros end) ws))))
    unfolding write_crc
    sealed-eq = sym (copy_all-append (zeros end) ws o 4 _)

    pub take-sealed : take o sealed ≡ take o (copy_all (zeros end) ws)
    take-sealed = ap (take o) sealed-eq ∙ front_crc _

    pub length-sealed : length sealed ≡ end
    length-sealed = ap length sealed-eq ∙ length-copy_all _ end (fits _)

    -- The sealed vector holds the pieces and its own checksum.
    pub sealed-Holds : Holds sealed 0 (with_crc (crc32c (take o sealed))) end
    sealed-Holds = rw (take-sealed, sealed-eq) (copy_all-Holds _ end (fits _))

    -- Nothing else of that length does.
    pub Holds-sealed :
        (bytes : List ℕ)
        → length bytes ≡ end
        → Holds bytes 0 (with_crc (crc32c (take o bytes))) end
        → bytes ≡ sealed
    Holds-sealed bytes l h =
        let e = Holds-copy_all bytes _ end l (fits _) h in
        let t : take o bytes ≡ take o (copy_all (zeros end) ws) = ap (take o) e ∙ front_crc _ in
        e ∙ ap (λ c. copy_all (zeros end) (with_crc (crc32c c))) t ∙ sym sealed-eq
