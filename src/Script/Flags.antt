-- ===== src/Script/Flags.antt =====
-- `SCRIPT_VERIFY` of src/MCP/MCP06/scriptInterpreter.h: flags are the bits of one number.
use metachain.Base.{ℕ, ◌^◌, Bool, not, bit_and, ◌==◌}

abbrev pub p2sh : ℕ
p2sh = 2 ^ 0

abbrev pub strictenc : ℕ
strictenc = 2 ^ 1

abbrev pub dersig : ℕ
dersig = 2 ^ 2

abbrev pub low_s : ℕ
low_s = 2 ^ 3

abbrev pub nulldummy : ℕ
nulldummy = 2 ^ 4

abbrev pub sigpushonly : ℕ
sigpushonly = 2 ^ 5

abbrev pub minimaldata : ℕ
minimaldata = 2 ^ 6

abbrev pub discourage_upgradable_nops : ℕ
discourage_upgradable_nops = 2 ^ 7

abbrev pub cleanstack : ℕ
cleanstack = 2 ^ 8

abbrev pub nullfail : ℕ
nullfail = 2 ^ 14

-- `(flags & mask) != 0`
unfoldable pub has : ℕ → ℕ → Bool
has flags mask = not (bit_and flags mask == 0)
