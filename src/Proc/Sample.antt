-- ===== src/Proc/Sample.antt =====
-- A table with three processes: the shell, a zombie child of it, and one that is ready.
use zwei_os.Base.{
  ℕ, zero, suc, ◌<◌, ◌≡◌, refl, sym, ◌∙◌, true, false, some, ◌∷◌, arith, get_or, replicate,
}
use zwei_os.Proc.Table.{ready, running, zombie, is_unused, Pcb, unused_pcb, Kernel, pcb_at}
use zwei_os.Mm.Heap.{heap_init}
use zwei_os.Proc.Process.Pids.{HasUniquePids}

abbrev pub shell : Pcb
shell = record unused_pcb { state = running; time_slice = 1 }

abbrev pub child : Pcb
child = record unused_pcb { state = zombie; pid = 1; exit_code = 7 }

abbrev pub worker : Pcb
worker = record unused_pcb { state = ready; pid = 2; cr3 = 4096; time_slice = 1 }

abbrev pub three : ℕ → Kernel
three running_entry = record {
  table = shell ∷ child ∷ worker ∷ replicate 29 unused_pcb;
  current = some running_entry;
  next_pid = 3;
  frames = record { bitmap = λ f. false; used = 0 };
  heap = heap_init;
  cr3 = 4096;
  static_pml4 = 8192;
  heap_base = 0;
  tss_stack = 0;
}

unused_after : (n i : ℕ) → is_unused (get_or (replicate n unused_pcb) i unused_pcb).state ≡ true
unused_after zero i = refl
unused_after (suc n) zero = refl
unused_after (suc n) (suc i) = unused_after n i

three_below :
    (c i : ℕ)
    → is_unused (pcb_at (three c) i).state ≡ false
    → (i ≡ (pcb_at (three c) i).pid) × (i < 3)
three_below c zero e = (refl, omega arith)
three_below c (suc zero) e = (refl, omega arith)
three_below c (suc (suc zero)) e = (refl, omega arith)
three_below c (suc (suc (suc i))) e = absurd (ground (arith, e, unused_after 29 i))

pub three-HasUniquePids : (c : ℕ) → HasUniquePids (three c)
three-HasUniquePids c = record {
  size = refl;
  below = λ i used. ground (arith, three_below c i used);
  distinct = λ i j ui uj e. (three_below c i ui).0 ∙ e ∙ sym (three_below c j uj).0;
}
