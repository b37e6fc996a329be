-- ===== src/Proc/Exit/Files.antt =====
-- `sys_ThreadExit` of the last thread: the streams of the process.
use tiny_os_project.Prelude.{
  ℕ, zero, suc, ◌+◌, ◌≤◌, ◌<◌, ◌≡◌, ◌≢◌, refl, inl, inr, none, some, [], update_self, arith, set,
  ◌∙◌, sym, ap, Option-cases, ℕ_discrete, get_or-set_ne, get_or-set_self,
}
use tiny_os_project.Streams.{Kernel, Driver, max_fileid, fid_entry, fcb_decref}
use tiny_os_project.Streams.Refs.{Roomy, IsCounted, clear-IsPending, decref-IsCounted}
use tiny_os_project.Streams.Table.{decref_fidt, decref_table}
use tiny_os_project.Proc.{Pcb, Procs, zombie, set_pcb, files_of, put_files}
use tiny_os_project.Proc.Exit.{close_all, cleanup_process}

-- The identifiers from `i` on are closed.
record Closed {W : Type 0} (held : ℕ → ℕ) (i : ℕ) (k k' : Kernel W) : Type 0 where
  counts : IsCounted held k'
  before : (g : ℕ) → g < i → fid_entry k.fidt g ≡ none → fid_entry k'.fidt g ≡ none
  behind : (g : ℕ) → i ≤ g → g < max_fileid → fid_entry k'.fidt g ≡ none

Closed-suc :
    {W : Type 0} {held : ℕ → ℕ} {i : ℕ} (k : Kernel W) {k1 k' : Kernel W}
    → ((g : ℕ) → g ≢ i → fid_entry k1.fidt g ≡ fid_entry k.fidt g)
    → fid_entry k1.fidt i ≡ none
    → Closed held (i + 1) k1 k'
    → Closed held i k k'
Closed-suc {i = i} k same here c = record {
  counts = c.counts;
  before = λ g h n. c.before g (omega (arith, h)) (same g (λ e. omega (arith, e, h)) ∙ n);
  behind = λ g h small. elim (ℕ_discrete g i) [
    | yes e ↦ c.before g (omega (arith, e)) (rw e here)
    | no n ↦ c.behind g (omega (arith, h, n)) small
  ];
}

module _ {W : Type 0} (d : Driver W) {held : ℕ → ℕ} (room : Roomy held) where
  -- One turn of the loop on a used identifier.
  closed-IsCounted :
      (i f : ℕ) (k : Kernel W)
      → i < max_fileid
      → fid_entry k.fidt i ≡ some f
      → IsCounted held k
      → let k1 = (fcb_decref d f k).1 in IsCounted held (record k1 { fidt = set k1.fidt i none })
  closed-IsCounted i f k small e v =
      rw (decref_fidt d f k, decref_table d f k (set k.fidt i none))
        (decref-IsCounted d f room (clear-IsPending i f small e v))

  close_all-Closed :
      (left i : ℕ) (k : Kernel W)
      → i + left ≡ max_fileid
      → IsCounted held k
      → Closed held i k (close_all d left i k)
  unfolding close_all
  close_all-Closed zero i k e v = record {
    counts = v;
    before = λ g h n. n;
    behind = λ g h small. absurd (omega (arith, e, h, small));
  }
  close_all-Closed (suc left) i k e v = elim (Option-cases (fid_entry k.fidt i)) [
    | inl n ↦
        rw (n, close_all)
          (Closed-suc k (λ g m. refl) n (close_all-Closed left (i + 1) k (omega (arith, e)) v))
    | inr (f, n) ↦
        let k1 = (fcb_decref d f k).1 in
        let k2 = record k1 { fidt = set k1.fidt i none } in
        rw (n, close_all)
          (Closed-suc k
            (λ g m. rw (decref_fidt d f k) (get_or-set_ne k.fidt none none (λ c. m (sym c))))
            (rw (decref_fidt d f k)
              (get_or-set_self k.fidt i none none (ground (arith, v.table, e))))
            (close_all-Closed left (i + 1) k2 (omega (arith, e))
              (closed-IsCounted i f k (omega (arith, e)) n v)))
  ]

  -- Where every reference counter of the streams is right as the process sees them, with room in 32
  -- bits, they are right after the last cleanup of `sys_ThreadExit`, with the same references from
  -- elsewhere, and every file identifier of the process is closed.
  pub cleanup_process-IsCounted :
      (cur : ℕ) (s : Procs W)
      → IsCounted held (files_of cur s)
      → let s' = cleanup_process d cur s in
        IsCounted held (files_of cur s')
        × ((g : ℕ) → g < max_fileid → fid_entry (s'.pcbs cur).fidt g ≡ none)
  unfolding cleanup_process
  cleanup_process-IsCounted cur s v =
      let s1 = set_pcb cur (record (s.pcbs cur) { args = none }) s in
      let start : (s1.pcbs cur).fidt ≡ (s.pcbs cur).fidt = ground arith in
      let k : Kernel W = files_of cur s1 in
      let c = close_all-Closed max_fileid 0 k refl (rw start v) in
      let s2 = put_files cur (close_all d max_fileid 0 k) s1 in
      let table : ((cleanup_process d cur s).pcbs cur).fidt ≡ (close_all d max_fileid 0 k).fidt =
        ap (λ (b : Pcb). b.fidt)
          (update_self s2.pcbs cur
            (record (s2.pcbs cur) { ptcb_list = []; main_thread = none; pstate = zombie }))
        ∙ ap (λ (b : Pcb). b.fidt)
            (update_self s1.pcbs cur
              (record (s1.pcbs cur) { fidt = (close_all d max_fileid 0 k).fidt })) in
      (rw table c.counts, λ g h. rw table (c.behind g (omega arith) h))
