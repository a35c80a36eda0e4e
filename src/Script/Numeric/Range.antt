-- ===== src/Script/Numeric/Range.antt =====
-- The ranges of the numbers in `evalScript` (src/MCP/MCP06/scriptInterpreter.cpp).
use native.Mathlib.Nat.{pow-suc}
use metachain.Base.{
  length, ℕ, zero, suc, ◌*◌, ◌^◌, ◌≤◌, ◌<◌, ◌≡◌, sym, subst, Bool, true, false, ◌&&◌, List, [], ◌∷◌,
  arith,
}
use metachain.Base.Bytes.{IsBytes}
use metachain.Base.Int.{◌+ℤ◌, ◌-ℤ◌, ltb_ℤ, leb_ℤ, magnitude, magnitude-+ℤ, magnitude--ℤ, ℤ, pos}
use metachain.Script.Opcode.{
  Opcode, op_1add, op_1sub, op_negate, op_abs, op_not, op_0notequal, op_add, op_sub, op_booland,
  op_boolor, op_numequal, op_numequalverify, op_numnotequal, op_lessthan, op_greaterthan,
  op_lessthanorequal, op_greaterthanorequal, op_min, op_max,
}
use metachain.Script.Outcome.{Ensures, Ensures-bind, Ensures-mono, Outcome}
use metachain.Script.Num.{set_vch, script_num, int64, add, sub, neg}
use metachain.Script.Num.Signed.{set_vch-Signed, unsigned, Signed-unsigned}
use metachain.Script.Stack.{Stack}
use metachain.Script.Stack.Elements.{
  IsStack, serialize-IsElement, bool_vch-IsElement, script_num-Ensures,
}
use metachain.Script.Numeric.{unary, binary, unary_num, binary_num, num_equal_verify, within}

-- An operand: the value of at most four bytes.
abbrev pub IsOperand : ℤ → Type 0
IsOperand v = magnitude v < 2 ^ 31

abbrev Any : ℤ → Type 0
Any v = Unit

-- No assertion fails, and no overflow occurs.
abbrev Fits : (ℤ → Outcome ℤ) → Type 0
Fits f = (v : ℤ) → IsOperand v → Ensures Any (f v)

abbrev Fits2 : (ℤ → ℤ → Outcome ℤ) → Type 0
Fits2 f = (v w : ℤ) → IsOperand v → IsOperand w → Ensures Any (f v w)

power_pos : (k : ℕ) → 0 < 256 ^ k
power_pos zero = omega arith
power_pos (suc k) = omega (arith, pow-suc 256 k, power_pos k)

unsigned_lt : (k : ℕ) (xs : List ℕ) → IsBytes xs → length xs ≤ suc k → unsigned xs < 128 * 256 ^ k
unfolding unsigned
unsigned_lt k [] h l = omega (arith, power_pos k)
unsigned_lt k (b ∷ []) h l = omega (arith, power_pos k)
unsigned_lt zero (b ∷ c ∷ bs) h l = absurd (omega arith)
unsigned_lt (suc k) (b ∷ c ∷ bs) h l =
    omega (arith, pow-suc 256 k, unsigned_lt k (c ∷ bs) h.1 (omega arith), h.0)

set_vch_lt : (xs : List ℕ) → IsBytes xs → length xs ≤ 4 → IsOperand (set_vch xs)
set_vch_lt [] h l = unfold set_vch in omega arith
set_vch_lt (b ∷ bs) h l =
    rw (set_vch-Signed _ _ (b ∷ bs) (Signed-unsigned b bs h))
      (ground (arith, unsigned_lt 3 (b ∷ bs) h l))

pub script_num-IsOperand : (m : Bool) (x : List ℕ) → IsBytes x → Ensures IsOperand (script_num m x)
script_num-IsOperand m x h =
    Ensures-mono _ IsOperand (script_num m x) (script_num-Ensures m x)
      (λ v e. subst IsOperand (sym e.0) (set_vch_lt x h e.1))

int64-Fits : (v : ℤ) → magnitude v < 2 ^ 63 → Ensures Any (int64 v)
unfolding int64
int64-Fits v h = ground arith

add-Fits : Fits2 add
unfolding add
add-Fits v w hv hw = int64-Fits (v +ℤ w) (omega (arith, magnitude-+ℤ v w))

sub-Fits : Fits2 sub
unfolding sub
sub-Fits v w hv hw = int64-Fits (v -ℤ w) (omega (arith, magnitude--ℤ v w))

neg-Fits : Fits neg
unfolding neg
neg-Fits v h = int64-Fits (pos 0 -ℤ v) (omega (arith, magnitude--ℤ (pos 0) v))

-- What `unary` and `binary` are called with.
unfoldable pub is_unary : Opcode → Bool
is_unary op_1add = true
is_unary op_1sub = true
is_unary op_negate = true
is_unary op_abs = true
is_unary op_not = true
is_unary op_0notequal = true
is_unary _ = false

unfoldable pub is_binary : Opcode → Bool
is_binary op_add = true
is_binary op_sub = true
is_binary op_booland = true
is_binary op_boolor = true
is_binary op_numequal = true
is_binary op_numequalverify = true
is_binary op_numnotequal = true
is_binary op_lessthan = true
is_binary op_greaterthan = true
is_binary op_lessthanorequal = true
is_binary op_greaterthanorequal = true
is_binary op_min = true
is_binary op_max = true
is_binary _ = false

unary-Fits : (op : Opcode) → is_unary op ≡ true → Fits (unary op)
unfolding unary is_unary
unary-Fits op e v h = ground (arith, add-Fits v (pos 1) h, sub-Fits v (pos 1) h, neg-Fits v h)

binary-Fits : (op : Opcode) → is_binary op ≡ true → Fits2 (binary op)
unfolding binary is_binary
binary-Fits op e v w hv hw = ground (arith, add-Fits v w hv hw, sub-Fits v w hv hw)

pub unary_num-IsStack :
    (m : Bool) (op : Opcode)
    → is_unary op ≡ true
    → (s : Stack) → IsStack s
    → Ensures IsStack (unary_num m op s)
unfolding unary_num
unary_num-IsStack m op e [] h = tt
unary_num-IsStack m op e (x ∷ s) h =
    Ensures-bind IsOperand IsStack (script_num m x) _ (script_num-IsOperand m x h.0.0) (λ bn hb.
      Ensures-bind Any IsStack (unary op bn) _ (unary-Fits op e bn hb)
        (λ r hr. (serialize-IsElement r, h.1)))

pub binary_num-IsStack :
    (m : Bool) (op : Opcode)
    → is_binary op ≡ true
    → (s : Stack) → IsStack s
    → Ensures IsStack (binary_num m op s)
unfolding binary_num
binary_num-IsStack m op e [] h = tt
binary_num-IsStack m op e (x ∷ []) h = tt
binary_num-IsStack m op e (x2 ∷ x1 ∷ s) h =
    Ensures-bind IsOperand IsStack (script_num m x1) _ (script_num-IsOperand m x1 h.1.0.0)
      (λ bn1 h1.
        Ensures-bind IsOperand IsStack (script_num m x2) _ (script_num-IsOperand m x2 h.0.0)
          (λ bn2 h2.
            Ensures-bind Any IsStack (binary op bn1 bn2) _ (binary-Fits op e bn1 bn2 h1 h2)
              (λ r hr. (serialize-IsElement r, h.1.1))))

pub num_equal_verify-IsStack : (s : Stack) → IsStack s → Ensures IsStack (num_equal_verify s)
unfolding num_equal_verify
num_equal_verify-IsStack s h = ground arith

pub within-IsStack : (m : Bool) (s : Stack) → IsStack s → Ensures IsStack (within m s)
unfolding within
within-IsStack m [] h = tt
within-IsStack m (x ∷ []) h = tt
within-IsStack m (x ∷ y ∷ []) h = tt
within-IsStack m (x3 ∷ x2 ∷ x1 ∷ s) h =
    Ensures-bind IsOperand IsStack (script_num m x1) _ (script_num-IsOperand m x1 h.1.1.0.0)
      (λ bn1 h1.
        Ensures-bind IsOperand IsStack (script_num m x2) _ (script_num-IsOperand m x2 h.1.0.0)
          (λ bn2 h2.
            Ensures-bind IsOperand IsStack (script_num m x3) _ (script_num-IsOperand m x3 h.0.0)
              (λ bn3 h3. (bool_vch-IsElement (leb_ℤ bn2 bn1 && ltb_ℤ bn1 bn3), h.1.1.1))))
