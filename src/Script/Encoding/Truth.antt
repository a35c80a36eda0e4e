-- ===== src/Script/Encoding/Truth.antt =====
-- `CastToBool` (src/MCP/MCP06/scriptFunctions.cpp) and the numbers that bytes stand for.
use metachain.Base.{length, ◌≤◌, ◌==◌, ℕ, ◌≡◌, refl, ◌∙◌, not, List, [], ◌∷◌, arith}
use metachain.Base.Bytes.{IsBytes}
use metachain.Base.Int.{pos}
use metachain.Script.Num.{set_vch, eq}
use metachain.Script.Num.Signed.{set_vch-Signed, unsigned, Signed-unsigned}
use metachain.Script.Encoding.{cast_to_bool}

unsigned_zero : (xs : List ℕ) → IsBytes xs → cast_to_bool xs ≡ not (unsigned xs == 0)
unfolding cast_to_bool unsigned
unsigned_zero [] h = refl
unsigned_zero (b ∷ []) h = ground arith
unsigned_zero (b ∷ c ∷ bs) h = ground (arith, unsigned_zero (c ∷ bs) h.1)

-- At most eight bytes count as true exactly where they stand for a number other than 0: a negative zero is
-- false.
pub cast_to_bool_iff :
    (vch : List ℕ)
    → IsBytes vch
    → length vch ≤ 8
    → cast_to_bool vch ≡ not (eq (set_vch vch) (pos 0))
cast_to_bool_iff [] h short = unfold cast_to_bool eq set_vch in refl
cast_to_bool_iff (b ∷ bs) h short =
    unsigned_zero (b ∷ bs) h
    ∙ rw (set_vch-Signed _ _ (b ∷ bs) (Signed-unsigned b bs h)) (unfold eq in ground arith)
