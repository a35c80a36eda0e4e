-- ===== src/Script/Code/Deletes.antt =====
-- `FindAndDelete` of src/MCP/MCP06/script.h against a description of what it deletes.
use metachain.Base.{
  ℕ, zero, suc, ◌+◌, ◌-◌, ◌*◌, ◌≤◌, ◌<◌, ◌≡◌, ◌≢◌, refl, sym, ap, ◌∙◌, inl, inr, true, false, none,
  some, List, ◌∷◌, ◌++◌, arith, ltb, ◌==◌, length, take, drop, Option-cases, Bool-cases,
  list_eq_sound, list_eq_refl, take-append, length-append, take-append-drop, length-drop, subst,
  take-append_of_length,
}
use Prim.Native.Nat.add
use native.Mathlib.Nat.{add-zero}
use mathlib.Core.List.{append_assoc}
use metachain.Script.Code.{
  get_op, is_copy, skip_copies, find_and_delete_loop, replace_script, find_and_delete,
}
use metachain.Script.Code.Reads.{get_op-Reads, get_op_shorter}

abbrev pub NoCopy : List ℕ → List ℕ → Type 0
NoCopy b pc = (rest : List ℕ) → pc ≢ b ++ rest

-- The script that is left of `pc` when each copy of `b` at the start of an instruction is taken out,
-- one after another, and how many there were. What follows a byte string that is no instruction stays.
pub data Deleted (b : List ℕ) : List ℕ → ℕ → List ℕ → Type 0 where
  cut : {pc r : List ℕ} {n : ℕ} → Deleted b pc n r → Deleted b (b ++ pc) (suc n) r
  keep :
      (chunk : List ℕ) {pc vch rest r : List ℕ} {opcode n : ℕ}
      → NoCopy b pc
      → get_op pc ≡ some (opcode, vch, rest)
      → pc ≡ chunk ++ rest
      → Deleted b rest n r
      → Deleted b pc n (chunk ++ r)
  stop : {pc : List ℕ} → NoCopy b pc → get_op pc ≡ none → Deleted b pc 0 pc

pub length-Deleted :
    {b pc r : List ℕ} {n : ℕ} → Deleted b pc n r → length pc ≡ length r + n * length b
length-Deleted {b} (cut {pc} {r} {n} d) = omega (arith, length-append b pc, length-Deleted d)
length-Deleted {b} (keep chunk {pc} {vch} {rest} {r} {n = n} free e l d) =
    omega (arith, ap length l, length-append chunk rest, length-append chunk r, length-Deleted d)
length-Deleted (stop free e) = omega arith

Deleted-none : {b pc r : List ℕ} {n : ℕ} → Deleted b pc n r → n ≡ 0 → r ≡ pc
Deleted-none (cut d) z = absurd (omega arith)
Deleted-none (keep chunk free e l d) z = ap (λ t. chunk ++ t) (Deleted-none d z) ∙ sym l
Deleted-none (stop free e) z = refl

is_copy-false : (b pc : List ℕ) → is_copy b pc ≡ false → NoCopy b pc
unfolding is_copy
is_copy-false b pc h rest e =
    ground (arith, ap length e, length-append b rest, list_eq_refl b, take-append b rest)

is_copy-true : (b pc : List ℕ) → is_copy b pc ≡ true → pc ≡ b ++ drop (length b) pc
unfolding is_copy
is_copy-true b pc h =
    ground (arith, list_eq_sound (take (length b) pc) b, take-append-drop (length b) pc)

-- Copies are skipped until there is none.
skip_copies-Deleted :
    (f : ℕ) (b pc : List ℕ) (n : ℕ) (r : List ℕ)
    → 0 < length b
    → length pc ≤ f
    → NoCopy b (skip_copies f b pc).1
      × (length (skip_copies f b pc).1 ≤ length pc)
      × (Deleted b (skip_copies f b pc).1 n r → Deleted b pc ((skip_copies f b pc).0 + n) r)
unfolding skip_copies
skip_copies-Deleted zero b pc n r h l = (
  λ rest e. absurd (omega (arith, ap length e, length-append b rest)),
  omega arith,
  λ d. rw add.zero d,
)
skip_copies-Deleted (suc f) b pc n r h l = elim (Bool-cases (is_copy b pc)) [
  | inl e ↦
      let (free, short, cuts) =
        skip_copies-Deleted f b (drop (length b) pc) n r h
          (omega (arith, length-drop (length b) pc)) in
      rw (e, skip_copies)
        (
          free,
          omega (arith, short, length-drop (length b) pc),
          λ d. rw add.suc (
              subst (λ l. Deleted b l (suc ((skip_copies f b (drop (length b) pc)).0 + n)) r)
                (sym (is_copy-true b pc e)) (cut (cuts d))),
        )
  | inr e ↦ rw (e, skip_copies) (is_copy-false b pc e, omega arith, λ d. rw add.zero d)
]

split_suffix :
    (xs front rest : List ℕ) → xs ≡ front ++ rest → xs ≡ take (length xs - length rest) xs ++ rest
split_suffix xs front rest e = rw e (
    ap (λ l. l ++ rest)
      (sym (take-append_of_length _ front rest (omega (arith, length-append front rest)))))

get_op_suffix :
    (pc : List ℕ) (o : ℕ) (vch rest : List ℕ)
    → get_op pc ≡ some (o, vch, rest)
    → pc ≡ take (length pc - length rest) pc ++ rest
get_op_suffix pc o vch rest e =
    let r = get_op-Reads pc o vch rest e in
    split_suffix pc (o ∷ (r.size ++ vch)) rest
      (r.layout ∙ ap (λ l. o ∷ l) (sym (append_assoc r.size vch rest)))

find_and_delete_loop-Deleted :
    (f : ℕ) (b pc : List ℕ)
    → 0 < length b
    → length pc < f
    → Deleted b pc (find_and_delete_loop f b pc).0 (find_and_delete_loop f b pc).1
unfolding find_and_delete_loop
find_and_delete_loop-Deleted zero b pc h l = absurd (omega arith)
find_and_delete_loop-Deleted (suc f) b pc h l =
    elim (Option-cases (get_op (skip_copies (length pc) b pc).1)) [
      | inl e ↦
          let (free, short, cuts) = skip_copies-Deleted (length pc) b pc 0 _ h (omega arith) in
          rw (e, find_and_delete_loop) (rw add-zero at (cuts (stop free e)))
      | inr ((o, vch, rest), e) ↦
          let (free, short, cuts) = skip_copies-Deleted (length pc) b pc _ _ h (omega arith) in
          let shorter = get_op_shorter _ o vch rest e in
          rw (e, find_and_delete_loop)
            (cuts (
              keep _ free e (get_op_suffix _ o vch rest e)
                (find_and_delete_loop-Deleted f b rest h (omega arith))))
    ]

replace_script-Deleted :
    (b script : List ℕ) (n : ℕ) (r : List ℕ)
    → Deleted b script n r
    → Deleted b script (replace_script script (n, r)).0 (replace_script script (n, r)).1
unfolding replace_script
replace_script-Deleted b script zero r d = subst (Deleted b script 0) (Deleted-none d refl) d
replace_script-Deleted b script (suc n) r d = let e : ltb 0 (suc n) ≡ true = ground arith in rw e d

-- `FindAndDelete` of a script `b` that is not empty takes out every copy of `b` that starts where an
-- instruction does, counts them, and leaves all other bytes as they were.
pub find_and_delete-Deleted :
    (b script : List ℕ)
    → 0 < length b
    → Deleted b script (find_and_delete b script).0 (find_and_delete b script).1
unfolding find_and_delete
find_and_delete-Deleted b script h =
    let e : (length b == 0) ≡ false = ground arith in
    rw e (
      replace_script-Deleted b script _ _
        (find_and_delete_loop-Deleted (suc (length script)) b script h (omega arith)))
