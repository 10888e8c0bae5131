-- ===== src/Simulator/Loading.antt =====
-- The constructor of lib/Simulator/Simulator.cpp loads the words of its input into the DRAM.
use rip_sim.Base.{
  ℕ, zero, suc, ◌+◌, ◌-◌, ◌*◌, ◌^◌, ◌≤◌, ◌<◌, ◌≡◌, refl, sym, ap, ◌∙◌, arith, ok, Result, ◌>>=◌,
  Option, none, some, List, [], ◌∷◌, update, bit_and, ◌>>>◌, ltb, true, false, u64,
}
use rip_sim.Memory
use rip_sim.Memory.{Memory, read_word, write_word}
use rip_sim.Memory.Bounds.{Fits}
use rip_sim.Memory.Words.{read_word-write_word}
use rip_sim.Registers
use rip_sim.Csr
use rip_sim.Csr.{machine}
use rip_sim.Stats
use rip_sim.Simulator.{Simulator, load_binary, init}

-- The word at an index.
abbrev pub nth : List ℕ → ℕ → Option ℕ
nth [] k = none
nth (w ∷ ws) zero = some w
nth (w ∷ ws) (suc k) = nth ws k

abbrev pub length {ℓ} : {A : Type ℓ} → List A → ℕ
length [] = 0
length (x ∷ xs) = suc (length xs)

abbrev pub AllWords : List ℕ → Type 0
AllWords [] = Unit
AllWords (w ∷ ws) = (w < 2 ^ 32) × AllWords ws

-- One word written: what is read back, and what is kept below it.
record Stored (m : Memory) (p w : ℕ) : Type 0 where
  after : Memory
  returns : write_word m p w ≡ ok after
  size_kept : after.size ≡ m.size
  base_kept : after.base ≡ m.base
  below : (j : ℕ) → m.base + j < p → after.cells j ≡ m.cells j

stored : (m : Memory) (p w : ℕ) → Fits m 4 p → Stored m p w
unfolding write_word
stored m p w fits =
    let i = p - m.base in
    let g1 : ltb p m.base ≡ false = ground arith in
    let g2 : ltb m.size i ≡ false = ground arith in
    let h0 : ltb i m.size ≡ true = ground arith in
    let h1 : ltb (i + 1) m.size ≡ true = ground arith in
    let h2 : ltb (i + 2) m.size ≡ true = ground arith in
    let h3 : ltb (i + 3) m.size ≡ true = ground arith in
    let c0 = update m.cells i (bit_and w 0xff) in
    let c1 = update c0 (i + 1) (bit_and (w >>> 8) 0xff) in
    let c2 = update c1 (i + 2) (bit_and (w >>> 16) 0xff) in
    record {
      after = record m { cells = update c2 (i + 3) (bit_and (w >>> 24) 0xff) };
      returns = rw (g1, g2, h0, h1, h2, h3) refl;
      size_kept = refl;
      base_kept = refl;
      below = λ j lt. ground arith;
    }

-- A word that is read depends only on its four cells.
read_word-cells :
    (a m : Memory) (p : ℕ)
    → a.size ≡ m.size
    → a.base ≡ m.base
    → Fits m 4 p
    → ((j : ℕ) → m.base + j < p + 4 → a.cells j ≡ m.cells j)
    → read_word a p ≡ read_word m p
unfolding read_word
read_word-cells a m p es eb fits same =
    let i = p - m.base in
    ground (
      arith,
      same i (omega arith),
      same (i + 1) (omega arith),
      same (i + 2) (omega arith),
      same (i + 3) (omega arith),
    )

-- What the loop leaves.
pub record Loaded (ws : List ℕ) (p : ℕ) (m : Memory) (r : Result Memory) : Type 0 where
  pub after : Memory
  pub returns : r ≡ ok after
  pub size_kept : after.size ≡ m.size
  pub base_kept : after.base ≡ m.base
  pub below : (j : ℕ) → m.base + j < p → after.cells j ≡ m.cells j
  pub words : (k w : ℕ) → nth ws k ≡ some w → read_word after (p + 4 * k) ≡ ok w

read_stored :
    (m a : Memory) (p w : ℕ)
    → write_word m p w ≡ ok a
    → Fits m 4 p
    → w < 2 ^ 32
    → read_word a p ≡ ok w
read_stored m a p w e fits h =
    ap (λ r. r >>= λ m'. read_word m' p) (sym e) ∙ read_word-write_word m p w fits h

-- The words of a list, from its first one and those of its rest.
words_of :
    (a : Memory) (x : ℕ) (ws : List ℕ) (p : ℕ)
    → read_word a p ≡ ok x
    → ((k w : ℕ) → nth ws k ≡ some w → read_word a (p + 4 + 4 * k) ≡ ok w)
    → (k w : ℕ) → nth (x ∷ ws) k ≡ some w
    → read_word a (p + 4 * k) ≡ ok w
words_of a x ws p first rest zero w e =
    let e0 : p + 4 * 0 ≡ p = omega arith in rw e0 (first ∙ ground (arith, e))
words_of a x ws p first rest (suc k) w e =
    let e1 : p + 4 * suc k ≡ p + 4 + 4 * k = omega arith in rw e1 (rest k w e)

pub load_binary-Loaded :
    (ws : List ℕ) (p : ℕ) (m : Memory)
    → AllWords ws
    → m.base ≤ p
    → p + 4 * length ws ≤ m.base + m.size
    → p + 4 * length ws < 2 ^ 64
    → Loaded ws p m (load_binary ws p m)
unfolding load_binary
load_binary-Loaded [] p m all lo hi wrap = record {
  after = m;
  returns = refl;
  size_kept = refl;
  base_kept = refl;
  below = λ j lt. refl;
  words = λ k w e. absurd (ground (arith, e));
}
load_binary-Loaded (x ∷ ws) p m (fits, all) lo hi wrap =
    let s = stored m p x (lo, omega arith) in
    let es = s.size_kept in
    let eb = s.base_kept in
    let l = load_binary-Loaded ws (p + 4) s.after all (omega arith) (omega arith) (omega arith) in
    let next : u64 (p + 4) ≡ p + 4 = omega arith in
    let first =
      read_word-cells l.after s.after p l.size_kept l.base_kept (omega arith, omega arith)
        (λ j lt. l.below j lt)
      ∙ read_stored m s.after p x s.returns (lo, omega arith) fits in
    record {
      after = l.after;
      returns = rw s.returns (ap (λ q. load_binary ws q s.after) next ∙ l.returns);
      size_kept = l.size_kept ∙ s.size_kept;
      base_kept = l.base_kept ∙ s.base_kept;
      below = λ j lt. l.below j (omega arith) ∙ s.below j lt;
      words = words_of l.after x ws p first l.words;
    }

-- The constructor loads the program.
pub record Starts (ws : List ℕ) (base : ℕ) (r : Result Simulator) : Type 0 where
  pub after : Simulator
  pub returns : r ≡ ok after
  pub at_base : after.machine_state.pc ≡ base
  pub words :
      (k w : ℕ) → nth ws k ≡ some w → read_word after.machine_state.mem (base + 4 * k) ≡ ok w

-- For a program of 32-bit words that fits in the DRAM, at a base address with which no address
-- wraps at 2 ^ 64, the constructor of the instruction-level simulator succeeds, puts PC at the
-- base, and leaves each word of the program to be read at the base plus four times its index.
pub init-Starts :
    (ws : List ℕ) (size base : ℕ) (spi : Option ℕ)
    → AllWords ws
    → 4 * length ws ≤ size
    → base + 4 * length ws < 2 ^ 64
    → Starts ws base (init ws size base spi)
unfolding init
init-Starts ws size base spi all fits wrap =
    let l =
      load_binary-Loaded ws base (Memory.init size base) all (omega arith) (omega arith) wrap in
    record {
      after = record {
        machine_state = record {
          pc = base;
          regs = Registers.init size base spi;
          mem = l.after;
          csrs = Csr.init;
          mode = machine;
          console = [];
        };
        stats = Stats.init;
      };
      returns = rw l.returns refl;
      at_base = refl;
      words = l.words;
    }
