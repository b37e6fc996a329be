-- ===== src/Proc/Exit/Reparent.antt =====
-- `sys_ThreadExit`: what an exiting process leaves to the process 1 and to its parent.
use tiny_os_project.Prelude.{
  ℕ, ◌+◌, ◌≡◌, ◌≢◌, ◌&&◌, refl, Option, none, some, List, [], ◌∷◌, ltb, ◌==◌, if◌then◌else◌, arith,
  count, count-append, ◌∙◌, ap,
}
use tiny_os_project.Proc.{Pcb, Procs, set_pcb}
use tiny_os_project.Proc.Exit.{reparent_loop, bequeath, tell_parent, hand_over}

-- The children `l` of `cur` are now those of the process 1.
pub record Moved (l : List ℕ) (cur : ℕ) (f g : ℕ → Pcb) : Type 0 where
  pub pstate : (u : ℕ) → (g u).pstate ≡ (f u).pstate
  pub exited : (u : ℕ) → (g u).exited_list ≡ (f u).exited_list
  pub parent : (u : ℕ) → (g u).parent ≡ (if ltb 0 (count u l) then some 1 else (f u).parent)
  pub children :
      (u r : ℕ)
      → count u (g r).children_list ≡ (
          if r == 1
          then count u l + count u (f 1).children_list
          else if r == cur
          then 0
          else count u (f r).children_list)

-- One turn of the loop.
record Turn (child : ℕ) (rest : List ℕ) (cur : ℕ) (f g : ℕ → Pcb) : Type 0 where
  pstate : (u : ℕ) → (g u).pstate ≡ (f u).pstate
  exited : (u : ℕ) → (g u).exited_list ≡ (f u).exited_list
  parent : (u : ℕ) → (g u).parent ≡ (if u == child then some 1 else (f u).parent)
  children :
      (r : ℕ)
      → (g r).children_list ≡ (
          if r == 1
          then child ∷ (f 1).children_list
          else if r == cur
          then rest
          else (f r).children_list)

Turn-Moved :
    (child : ℕ) (rest : List ℕ) (cur : ℕ) (f g h : ℕ → Pcb)
    → cur ≢ 1
    → Turn child rest cur f g
    → Moved rest cur g h
    → Moved (child ∷ rest) cur f h
Turn-Moved child rest cur f g h n a b = record {
  pstate = λ u. b.pstate u ∙ a.pstate u;
  exited = λ u. b.exited u ∙ a.exited u;
  parent = λ u. ground (arith, a.parent u, b.parent u);
  children = λ u r.
      ground (arith, ap (count u) (a.children r), ap (count u) (a.children 1), b.children u r);
}

module _ {W : Type 0} where
  turn : (child : ℕ) → (rest : List ℕ) → (cur : ℕ) → Procs W → Procs W
  turn child rest cur s =
      let s1 = set_pcb cur (record (s.pcbs cur) { children_list = rest }) s in
      let s2 = set_pcb child (record (s1.pcbs child) { parent = some 1 }) s1 in
      set_pcb 1 (record (s2.pcbs 1) { children_list = child ∷ (s2.pcbs 1).children_list }) s2

  turn-Turn :
      (child : ℕ) (rest : List ℕ) (cur : ℕ) (s : Procs W)
      → cur ≢ 1
      → Turn child rest cur s.pcbs (turn child rest cur s).pcbs
  unfolding turn
  turn-Turn child rest cur s n = record {
    pstate = λ u. ground arith;
    exited = λ u. ground arith;
    parent = λ u. ground arith;
    children = λ r. ground (arith, n);
  }

  turn_left :
      (child : ℕ) (rest : List ℕ) (cur : ℕ) (s : Procs W)
      → cur ≢ 1
      → ((turn child rest cur s).pcbs cur).children_list ≡ rest
  unfolding turn
  turn_left child rest cur s n = ground (arith, n)

  reparent_loop-Moved :
      (l : List ℕ) (cur : ℕ) (s : Procs W)
      → cur ≢ 1
      → (s.pcbs cur).children_list ≡ l
      → Moved l cur s.pcbs (reparent_loop l cur s).pcbs
  unfolding reparent_loop turn
  reparent_loop-Moved [] cur s n e = record {
    pstate = λ u. refl;
    exited = λ u. refl;
    parent = λ u. refl;
    children = λ u r. ground (arith, ap (count u) e);
  }
  reparent_loop-Moved (child ∷ rest) cur s n e =
      let a = turn-Turn child rest cur s n in
      Turn-Moved child rest cur s.pcbs (turn child rest cur s).pcbs
        (reparent_loop rest cur (turn child rest cur s)).pcbs n a
        (reparent_loop-Moved rest cur (turn child rest cur s) n (turn_left child rest cur s n))

-- What `hand_over` makes of the table, in which `q` is the parent of `cur`.
pub record Handed (cur q : ℕ) (f g : ℕ → Pcb) : Type 0 where
  pub pstate : (u : ℕ) → (g u).pstate ≡ (f u).pstate
  pub parent :
      (u : ℕ)
      → (g u).parent ≡ (if ltb 0 (count u (f cur).children_list) then some 1 else (f u).parent)
  pub children :
      (u r : ℕ)
      → count u (g r).children_list ≡ (
          if r == 1
          then count u (f cur).children_list + count u (f 1).children_list
          else if r == cur
          then 0
          else count u (f r).children_list)
  pub exited :
      (u r : ℕ)
      → count u (g r).exited_list
        ≡ (if r == cur then 0 else count u (f r).exited_list)
          + ((if r == 1 then count u (f cur).exited_list else 0)
              + (if r == q && u == cur then 1 else 0))

-- The list of the exited children.
record Bequeathed (cur : ℕ) (f g : ℕ → Pcb) : Type 0 where
  pstate : (u : ℕ) → (g u).pstate ≡ (f u).pstate
  parent : (u : ℕ) → (g u).parent ≡ (f u).parent
  children : (u : ℕ) → (g u).children_list ≡ (f u).children_list
  exited :
      (u r : ℕ)
      → count u (g r).exited_list
        ≡ (if r == cur then 0 else count u (f r).exited_list)
          + (if r == 1 then count u (f cur).exited_list else 0)

bequeath-Bequeathed :
    {W : Type 0} (l : List ℕ) (cur : ℕ) (s : Procs W)
    → cur ≢ 1
    → (s.pcbs cur).exited_list ≡ l
    → Bequeathed cur s.pcbs (bequeath l cur s).1.pcbs
bequeath-Bequeathed [] cur s n e = record {
  pstate = λ u. refl;
  parent = λ u. refl;
  children = λ u. refl;
  exited = λ u r. ground (arith, ap (count u) e);
}
bequeath-Bequeathed (p ∷ l) cur s n e = record {
  pstate = λ u. ground arith;
  parent = λ u. ground arith;
  children = λ u. ground arith;
  exited = λ u r. ground (arith, n, ap (count u) e, count-append u (s.pcbs 1).exited_list (p ∷ l));
}

-- Joining the exited children of the parent.
record Told (cur q : ℕ) (f g : ℕ → Pcb) : Type 0 where
  pstate : (u : ℕ) → (g u).pstate ≡ (f u).pstate
  parent : (u : ℕ) → (g u).parent ≡ (f u).parent
  children : (u : ℕ) → (g u).children_list ≡ (f u).children_list
  exited :
      (u r : ℕ)
      → count u (g r).exited_list
        ≡ count u (f r).exited_list + (if r == q && u == cur then 1 else 0)

tell_parent-Told :
    {W : Type 0} (o : Option ℕ) (cur q : ℕ) (s : Procs W)
    → o ≡ some q
    → Told cur q s.pcbs (tell_parent o cur s).1.pcbs
tell_parent-Told none cur q s e = ground (arith, e)
tell_parent-Told (some p) cur q s e =
    let same : p ≡ q = ground (arith, e) in
    rw same (record {
      pstate = λ u. ground arith;
      parent = λ u. ground arith;
      children = λ u. ground arith;
      exited = λ u r. ground arith;
    })

Handed-compose :
    (cur q : ℕ) (f g h k : ℕ → Pcb)
    → q ≢ cur
    → Moved (f cur).children_list cur f g
    → Bequeathed cur g h
    → Told cur q h k
    → Handed cur q f k
Handed-compose cur q f g h k n a b c = record {
  pstate = λ u. c.pstate u ∙ (b.pstate u ∙ a.pstate u);
  parent = λ u. c.parent u ∙ (b.parent u ∙ a.parent u);
  children = λ u r. ap (count u) (c.children r ∙ b.children r) ∙ a.children u r;
  exited = λ u r. rw (c.exited u r, b.exited u r, a.exited r, a.exited cur) (omega arith);
}

-- `hand_over` changes the free list and its length as little as the states.
Rest : {W : Type 0} → (s s' : Procs W) → Type 0
Rest s s' = (s'.pcb_freelist ≡ s.pcb_freelist) × (s'.process_count ≡ s.process_count)

module _ {W : Type 0} where
  reparent_loop-Rest : (l : List ℕ) (cur : ℕ) (s : Procs W) → Rest s (reparent_loop l cur s)
  unfolding reparent_loop Rest turn
  reparent_loop-Rest [] cur s = (refl, refl)
  reparent_loop-Rest (child ∷ rest) cur s = reparent_loop-Rest rest cur (turn child rest cur s)

  pub hand_over-Handed :
      (cur q : ℕ) (s : Procs W)
      → cur ≢ 1
      → q ≢ cur
      → (s.pcbs cur).parent ≡ some q
      → count cur (s.pcbs cur).children_list ≡ 0
      → Handed cur q s.pcbs (hand_over cur s).1.pcbs
  unfolding hand_over
  hand_over-Handed cur q s n apart mine none_own =
      let s1 = reparent_loop (s.pcbs cur).children_list cur s in
      let a = reparent_loop-Moved (s.pcbs cur).children_list cur s n refl in
      let b = bequeath-Bequeathed (s1.pcbs cur).exited_list cur s1 n refl in
      let s2 = (bequeath (s1.pcbs cur).exited_list cur s1).1 in
      let still : (s2.pcbs cur).parent ≡ some q =
        b.parent cur ∙ (a.parent cur ∙ rw (none_own) mine) in
      Handed-compose cur q s.pcbs s1.pcbs s2.pcbs (hand_over cur s).1.pcbs apart a b
        (tell_parent-Told (s2.pcbs cur).parent cur q s2 still)

  bequeath-Rest : (l : List ℕ) (cur : ℕ) (s : Procs W) → Rest s (bequeath l cur s).1
  unfolding Rest
  bequeath-Rest [] cur s = (refl, refl)
  bequeath-Rest (p ∷ l) cur s = (refl, refl)

  tell_parent-Rest : (o : Option ℕ) (cur : ℕ) (s : Procs W) → Rest s (tell_parent o cur s).1
  unfolding Rest
  tell_parent-Rest none cur s = (refl, refl)
  tell_parent-Rest (some q) cur s = (refl, refl)

  pub hand_over-Rest :
      (cur : ℕ) (s : Procs W)
      → ((hand_over cur s).1.pcb_freelist ≡ s.pcb_freelist)
        × ((hand_over cur s).1.process_count ≡ s.process_count)
  unfolding hand_over Rest
  hand_over-Rest cur s =
      let s1 = reparent_loop (s.pcbs cur).children_list cur s in
      let s2 = (bequeath (s1.pcbs cur).exited_list cur s1).1 in
      let (a, a') = reparent_loop-Rest (s.pcbs cur).children_list cur s in
      let (b, b') = bequeath-Rest (s1.pcbs cur).exited_list cur s1 in
      let (c, c') = tell_parent-Rest (s2.pcbs cur).parent cur s2 in (c ∙ (b ∙ a), c' ∙ (b' ∙ a'))
