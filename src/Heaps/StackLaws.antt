-- ===== src/Heaps/StackLaws.antt =====
-- What the operations of src/sassimplestack.cpp do to a stack.
use mathlib.Core.Path.{subst}
use sphde.Base.{
  ℕ, ◌+◌, ◌-◌, ◌*◌, ◌/◌, ◌%◌, ◌^◌, ◌≤◌, ◌<◌, ◌≡◌, refl, sym, ap, ◌∙◌, ◌≢◌, ◌⊎◌, true, false, leb,
  ◌==◌, if◌then◌else◌, Option, none, some, List, [], ◌∷◌, arith, Bool-cases, Option-cases, inl, inr,
}
use sphde.Heaps.Block.{simple_stack, check_type, success, range_error, align_error}
use sphde.Heaps.Stack.{
  Stack, stack_next, alloc_no_lock, alloc, contained, dealloc, free_space, free_space_no_lock,
}

-- A stack of the type in memory, whose top is aligned and between its ends.
pub record IsStack (s : Stack) : Type 0 where
  pub is_type : check_type s.block simple_stack ≡ true
  pub alignment : s.align ≡ 16
  pub aligned : s.next_stack % 16 ≡ 0
  pub started : s.start_stack ≤ s.next_stack
  pub bounded : s.next_stack ≤ s.end_stack
  pub in_memory : s.end_stack < 2 ^ 64

-- The size in whole units of 16 bytes.
abbrev pub in_units : ℕ → ℕ
in_units n = (n + 15) / 16 * 16

module _ (s : Stack) (stack : IsStack s) where
  alloc-IsStack :
      (n : ℕ)
      → alloc s n ≡ (
          if leb (stack_next s n) s.end_stack
          then (some s.next_stack, record s { next_stack = stack_next s n })
          else (none, s))
  unfolding alloc alloc_no_lock
  alloc-IsStack n = rw stack.is_type refl

  next-fits : (n : ℕ) → s.next_stack + n + 15 < 2 ^ 64 → stack_next s n ≡ s.next_stack + in_units n
  unfolding stack_next
  next-fits n fits = rw stack.alignment (omega (arith, fits, stack.aligned))

  free_space-IsStack : free_space s ≡ s.end_stack - s.next_stack
  unfolding free_space free_space_no_lock
  free_space-IsStack = rw stack.is_type (omega (arith, stack.bounded, stack.in_memory))

  free_space-with_next :
      (sp : ℕ) → sp ≤ s.end_stack → free_space (record s { next_stack = sp }) ≡ s.end_stack - sp
  unfolding free_space free_space_no_lock
  free_space-with_next sp l = rw stack.is_type (omega (arith, l, stack.in_memory))

  alloc_room :
      (n : ℕ)
      → s.next_stack + n + 15 < 2 ^ 64
      → in_units n ≤ s.end_stack - s.next_stack
      → alloc s n ≡ (some s.next_stack, record s { next_stack = s.next_stack + in_units n })
  alloc_room n fits small =
      let test : leb (s.next_stack + in_units n) s.end_stack ≡ true =
        ground (arith, small, stack.bounded) in
      alloc-IsStack n ∙ rw (next-fits n fits) (rw test refl)

  alloc_full :
      (n : ℕ)
      → s.next_stack + n + 15 < 2 ^ 64
      → s.end_stack - s.next_stack < in_units n
      → alloc s n ≡ (none, s)
  alloc_full n fits large =
      let test : leb (s.next_stack + in_units n) s.end_stack ≡ false =
        ground (arith, large, stack.bounded) in
      alloc-IsStack n ∙ rw (next-fits n fits) (rw test refl)

  with_next-IsStack :
      (sp : ℕ)
      → sp % 16 ≡ 0
      → s.start_stack ≤ sp
      → sp ≤ s.end_stack
      → IsStack (record s { next_stack = sp })
  with_next-IsStack sp aligned started bounded = record {
    is_type = stack.is_type;
    alignment = stack.alignment;
    aligned = aligned;
    started = started;
    bounded = bounded;
    in_memory = stack.in_memory;
  }

  -- An allocation of a size that does not overflow the address of the top succeeds exactly where the size
  -- in whole units is free: it gives the top and moves it by them, and the free space goes down by them.
  -- Elsewhere it gives NULL and leaves the stack.
  pub stack_alloc_lem :
      (n : ℕ)
      → s.next_stack + n + 15 < 2 ^ 64
      → (alloc s n ≡ (
          if leb (in_units n) (free_space s)
          then (some s.next_stack, record s { next_stack = s.next_stack + in_units n })
          else (none, s)))
        × IsStack (alloc s n).1
        × (free_space (alloc s n).1
            ≡ (if leb (in_units n) (free_space s) then free_space s - in_units n else free_space s))
  stack_alloc_lem n fits = elim (Bool-cases (leb (in_units n) (free_space s))) [
    | inl test ↦
        let small : in_units n ≤ s.end_stack - s.next_stack =
          ground (arith, test, free_space-IsStack) in
        let top = s.next_stack + in_units n in
        let below : top ≤ s.end_stack = omega (arith, small, stack.bounded) in
        let gives = alloc_room n fits small in
        (
          gives ∙ rw test refl,
          subst (λ r. IsStack r.1) (sym gives)
              (with_next-IsStack top (omega (arith, stack.aligned)) (omega (arith, stack.started))
                below),
          ap (λ r. free_space r.1) gives
              ∙ free_space-with_next top below
              ∙ rw test (rw free_space-IsStack (omega (arith, small))),
        )
    | inr test ↦
        let large : s.end_stack - s.next_stack < in_units n =
          ground (arith, test, free_space-IsStack) in
        let gives = alloc_full n fits large in
        (
          gives ∙ rw test refl,
          subst (λ r. IsStack r.1) (sym gives) stack,
          ap (λ r. free_space r.1) gives ∙ rw test refl,
        )
  ]

  -- An allocation of 64 bits whose size overflows the address of the top succeeds all the same: it gives the
  -- top, and the top goes back.
  pub stack_alloc_wraps :
      (n : ℕ)
      → n < 2 ^ 64
      → 2 ^ 64 ≤ s.next_stack + n + 15
      → ((alloc s n).0 ≡ some s.next_stack) × ((alloc s n).1.next_stack ≤ s.next_stack)
  unfolding stack_next
  stack_alloc_wraps n small wraps =
      let back : stack_next s n ≤ s.next_stack =
        rw stack.alignment
          (omega (arith, small, wraps, stack.aligned, stack.bounded, stack.in_memory)) in
      let test : leb (stack_next s n) s.end_stack ≡ true = ground (arith, back, stack.bounded) in
      let gives : alloc s n ≡ (some s.next_stack, record s { next_stack = stack_next s n }) =
        alloc-IsStack n ∙ rw test refl in
      (ap (λ r. r.0) gives, subst (λ r. r.1.next_stack ≤ s.next_stack) (sym gives) back)

  dealloc-IsStack :
      (sp : ℕ)
      → dealloc s sp ≡ (
          if contained s sp
          then if sp / 16 * 16 == sp
            then (success, record s { next_stack = sp })
            else (align_error, s)
          else (range_error, s))
  unfolding dealloc
  dealloc-IsStack sp = rw stack.is_type (rw stack.alignment refl)

-- The allocations of the sizes in order, where all succeed.
unfoldable pub alloc_all : Stack → List ℕ → Option Stack
alloc_all s [] = some s
alloc_all s (n ∷ ns) = elim (alloc s n).0 [ none ↦ none | some at ↦ alloc_all (alloc s n).1 ns ]

-- No size overflows the address of the top.
unfoldable pub Small : Stack → List ℕ → Type 0
Small s [] = Unit
Small s (n ∷ ns) = (s.next_stack + n + 15 < 2 ^ 64) × Small (alloc s n).1 ns

-- The second stack is the first with a top that is not lower.
abbrev Above : Stack → Stack → Type 0
Above s s' =
    IsStack s' × (record s' { next_stack = s.next_stack } ≡ s) × (s.next_stack ≤ s'.next_stack)

alloc-Above :
    (s : Stack) (n at : ℕ)
    → IsStack s
    → s.next_stack + n + 15 < 2 ^ 64
    → (alloc s n).0 ≡ some at
    → Above s (alloc s n).1
alloc-Above s n at stack fits e =
    let (gives, stack', _) = stack_alloc_lem s stack n fits in
    elim (Bool-cases (leb (in_units n) (free_space s))) [
      | inl test ↦
          let moved : alloc s n
              ≡ (some s.next_stack, record s { next_stack = s.next_stack + in_units n }) =
            gives ∙ rw test refl in
          (
            stack',
            ap (λ r. record r.1 { next_stack = s.next_stack }) moved,
            subst (λ r. s.next_stack ≤ r.1.next_stack) (sym moved) (omega arith),
          )
      | inr test ↦
          let failed : alloc s n ≡ (none, s) = gives ∙ rw test refl in
          absurd (ground (arith, sym (ap (λ r. r.0) failed) ∙ e))
    ]

Above-alloc_all :
    (s s' : Stack) (ns : List ℕ) → IsStack s → Small s ns → alloc_all s ns ≡ some s' → Above s s'
unfolding alloc_all Small
Above-alloc_all s s' [] stack small e =
    let same : s ≡ s' = cc e in subst (Above s) same (stack, refl, omega arith)
Above-alloc_all s s' (n ∷ ns) stack (fits, small) e = elim (Option-cases (alloc s n).0) [
  | inl nothing ↦ absurd (ground (arith, nothing, e))
  | inr (at, e') ↦
      let (stack1, same1, up1) = alloc-Above s n at stack fits e' in
      let rest : alloc_all (alloc s n).1 ns ≡ some s' = ground (arith, e, e') in
      let (stack2, same2, up2) = Above-alloc_all (alloc s n).1 s' ns stack1 small rest in
      (
        stack2,
        ap {A = Stack} (λ r. record r { next_stack = s.next_stack }) same2 ∙ same1,
        omega (arith, up1, up2),
      )
]

-- After any number of allocations that succeed, without overflow of an address, giving back the space from
-- the address of the first one on succeeds and restores the stack.
pub dealloc-alloc_all :
    (s s' : Stack) (ns : List ℕ)
    → IsStack s
    → Small s ns
    → alloc_all s ns ≡ some s'
    → dealloc s' s.next_stack ≡ (success, s)
unfolding contained
dealloc-alloc_all s s' ns stack small e =
    let (stack', same, up) = Above-alloc_all s s' ns stack small e in
    let start : s'.start_stack ≡ s.start_stack = ap (λ r. r.start_stack) same in
    let inside : contained s' s.next_stack ≡ true =
      ground (arith, start, stack.started, up, stack'.bounded) in
    let aligned : (s.next_stack / 16 * 16 == s.next_stack) ≡ true = ground (arith, stack.aligned) in
    dealloc-IsStack s' stack' s.next_stack ∙ rw inside (rw aligned (ap (λ r. (success, r)) same))

-- Giving back from an address on, under the lock, moves the top there and frees what is above it, where the
-- address is between the ends of the stack and aligned; else the code says which fails, and the stack is left.
pub stack_dealloc_lem :
    (s : Stack) (sp : ℕ)
    → IsStack s
    → ((s.start_stack ≤ sp)
        × (sp ≤ s.end_stack)
        × (sp % 16 ≡ 0)
        × (dealloc s sp ≡ (success, record s { next_stack = sp }))
        × IsStack (record s { next_stack = sp })
        × (free_space (record s { next_stack = sp }) ≡ s.end_stack - sp))
      ⊎ ((s.start_stack ≤ sp)
          × (sp ≤ s.end_stack)
          × (sp % 16 ≢ 0)
          × (dealloc s sp ≡ (align_error, s)))
      ⊎ (((sp < s.start_stack) ⊎ (s.end_stack < sp)) × (dealloc s sp ≡ (range_error, s)))
unfolding contained
stack_dealloc_lem s sp stack =
    let gives = dealloc-IsStack s stack sp in
    elim (Bool-cases (contained s sp)) [
      | inr outside ↦ inr (inr (ground (arith, outside), gives ∙ rw outside refl))
      | inl inside ↦
          let low : s.start_stack ≤ sp = ground (arith, inside) in
          let high : sp ≤ s.end_stack = ground (arith, inside) in
          elim (Bool-cases (sp / 16 * 16 == sp)) [
            | inl test ↦
                let aligned : sp % 16 ≡ 0 = ground (arith, test) in
                inl (
                  low,
                  high,
                  aligned,
                  gives ∙ rw inside (rw test refl),
                  with_next-IsStack s stack sp aligned low high,
                  free_space-with_next s stack sp high,
                )
            | inr test ↦
                inr (inl (low, high, ground (arith, test), gives ∙ rw inside (rw test refl)))
          ]
    ]
