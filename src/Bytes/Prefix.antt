-- ===== src/Bytes/Prefix.antt =====
-- What `starts_with` decides when the prefix has the length of the first part.
use massa_history.Base.{true, ◌≡◌, refl, [], ◌∷◌, ◌++◌, length, arith}
use massa_history.Bytes.{Bytes, starts_with}

pub starts_with-append : (ps bs : Bytes) → starts_with (ps ++ bs) ps ≡ true
unfolding starts_with
starts_with-append [] [] = refl
starts_with-append [] (b ∷ bs) = refl
starts_with-append (p ∷ ps) bs = ground (arith, starts_with-append ps bs)

pub starts_with-eq :
    (xs bs ps : Bytes) → length xs ≡ length ps → starts_with (xs ++ bs) ps ≡ true → xs ≡ ps
unfolding starts_with
starts_with-eq [] bs [] e h = refl
starts_with-eq [] bs (p ∷ ps) e h = absurd (omega arith)
starts_with-eq (x ∷ xs) bs [] e h = absurd (omega arith)
starts_with-eq (x ∷ xs) bs (p ∷ ps) e h = ground (arith, starts_with-eq xs bs ps (omega arith))
