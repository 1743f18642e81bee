-- ===== src/Context/Examples.antt =====
-- A small store, with exact fractions in place of doubles.
use falda.Prelude.{
  ℕ, ◌+◌, ◌-◌, ◌*◌, ◌/◌, ◌≤◌, ◌<◌, String, false, Option, none, some, [], ◌∷◌, ◌≡◌, refl, arith,
  ltb, length,
}
use falda.Context.{
  Text, truncate, FloatOps, AtomHit, StoreReads, ItemCaps, AssembledContext, TierBudgets,
  assemble_context, admit_pinned, admit_ranked, admit_scenes, admit_core, scene_text,
}
use falda.Context.Truncate.{length-truncate, truncate_overflow}
use falda.Context.Budget.{IsBalanced, assemble_context-IsBalanced}
use falda.Context.Complete.{IsComplete, assemble_context-IsComplete}

-- A fraction is its numerator and its denominator.
abbrev fractions : FloatOps
fractions = record {
  F = ℕ × ℕ;
  of_ℕ = λ n. (n, 1);
  add = λ a b. (a.0 * b.1 + b.0 * a.1, a.1 * b.1);
  mul = λ a b. (a.0 * b.0, a.1 * b.1);
  div = λ a b. (a.0 * b.1, a.1 * b.0);
  floor = λ a. a.0 / a.1;
  ceil = λ a. (a.0 + a.1 - 1) / a.1;
  is_positive = λ a. ltb 0 a.0;
  three_halves = (3, 2);
}

abbrev default_budgets : TierBudgets fractions
default_budgets = record {
  pinned = (20, 100);
  atoms = (40, 100);
  scenes = (25, 100);
  core = (15, 100);
}

abbrev hit : String → Text → AtomHit
hit id content = record { id = id; content = content; score = some "0.5" }

abbrev store : StoreReads
store = record {
  pinned_atoms = hit "p" (b'p' ∷ []) ∷ [];
  search_atoms = λ n. hit "p" (b'p' ∷ []) ∷ hit "a" (b'a' ∷ b'b' ∷ []) ∷ [];
  search_scenes = λ n.
      record {
        scene_id = "topic:t";
        scene_kind = b't' ∷ [];
        title = b'x' ∷ [];
        summary = none;
        score = none;
      }
      ∷ [];
  core = b'c' ∷ b'd' ∷ [];
}

abbrev caps : ItemCaps
caps = record { atom_item_cap = 600; scene_item_cap = 1800 }

program : Unit {0}
unfolding assemble_context truncate admit_pinned admit_ranked admit_scenes admit_core scene_text
program = tt

abbrev empty : AssembledContext
empty = record {
  pinned_atoms = [];
  ranked_atoms = [];
  scenes = [];
  core = [];
  total_chars = 0;
  budget_chars = 0;
  pinned_chars = 0;
  atoms_chars = 0;
  scenes_chars = 0;
  core_chars = 0;
  items = [];
  truncated = false;
}

abbrev or_empty : Option AssembledContext → AssembledContext
or_empty none = empty
or_empty (some ctx) = ctx

abbrev assembled : AssembledContext
assembled = or_empty (assemble_context fractions store caps 500 default_budgets)

assembles : assemble_context fractions store caps 500 default_budgets ≡ some assembled
unfolding program
assembles = refl

counts : (assembled.total_chars ≡ 10) × (assembled.truncated ≡ false)
unfolding program
counts = (refl, refl)

assemble_context-IsBalanced_example : IsBalanced 500 100 200 125 assembled
assemble_context-IsBalanced_example =
    assemble_context-IsBalanced fractions store caps 500 default_budgets assembled (omega arith)
      assembles

assemble_context-IsComplete_example : IsComplete store caps assembled
assemble_context-IsComplete_example =
    assemble_context-IsComplete fractions store caps 500 default_budgets assembled assembles
      counts.1

abbrev word : Text
word = b'w' ∷ b'o' ∷ b'r' ∷ b'd' ∷ []

length-truncate_example :
    (length (truncate word 3) ≤ 3) × (length word ≤ 3 → truncate word 3 ≡ word)
length-truncate_example = length-truncate word 3 (omega arith)

truncate_overflow_example : 2 < length (truncate word 2)
truncate_overflow_example = truncate_overflow word 2 (omega arith) (omega arith)

cut_to_two : truncate word 2 ≡ b'w' ∷ b'o' ∷ b'r' ∷ b'.' ∷ b'.' ∷ b'.' ∷ []
unfolding program
cut_to_two = refl
