-- ===== src/DeepCopy/Cells.antt =====
-- Memory by addresses: a value of one type at each address below the next free one.
use mathlib.Core.Option
use k8s_health_ai.Prelude.{
  ℕ, zero, suc, ◌<◌, ◌≤◌, ◌≡◌, ◌≢◌, refl, sym, ap, ◌∙◌, Option, none, some, List, [], ◌∷◌, ◌++◌,
  length, arith, Option-cases, inl, inr,
}

abbrev pub Address : Type 0
Address = ℕ

abbrev pub Store : Type 0 → Type 0
Store A = List A

-- what is written through one pointer is not read through another whose target stands elsewhere
abbrev pub IsApart : Option Address → Option Address → Type 0
IsApart none q = Unit
IsApart (some a) none = Unit
IsApart (some a) (some b) = a ≢ b

module _ {A : Type 0} where
  unfoldable pub load : Store A → Address → Option A
  load [] a = none
  load (x ∷ st) zero = some x
  load (x ∷ st) (suc a) = load st a

  unfoldable pub write : Store A → Address → A → Store A
  write [] a y = []
  write (x ∷ st) zero y = y ∷ st
  write (x ∷ st) (suc a) y = x ∷ write st a y

  -- `*p`, with `none` for nil
  unfoldable pub read : Store A → Option Address → Option A
  unfolding load
  read st none = none
  read st (some a) = load st a

  -- `*p = y`
  unfoldable pub write_through : Store A → Option Address → A → Store A
  unfolding write
  write_through st none y = st
  write_through st (some a) y = write st a y

  unfoldable pub allocate : (A → A) → Store A → Option A → Option Address × Store A
  allocate f st none = (none, st)
  allocate f st (some x) = (some (length st), st ++ f x ∷ [])

  -- `if in.P != nil { out.P = new(T); f(in.P, out.P) }`
  unfoldable pub copy_pointer : (A → A) → Store A → Option Address → Option Address × Store A
  unfolding read allocate
  copy_pointer f st p = allocate f st (read st p)

  -- the pointer is nil, or its target stands in the memory
  abbrev pub IsIn : Store A → Option Address → Type 0
  IsIn st none = Unit
  IsIn st (some a) = a < length st

  -- the pointer is nil, or its target stands behind the memory
  abbrev pub IsFresh : Store A → Option Address → Type 0
  IsFresh st none = Unit
  IsFresh st (some a) = length st ≤ a

  load-append :
      (st : Store A) (a : Address) (ys : List A) → a < length st → load (st ++ ys) a ≡ load st a
  unfolding load
  load-append [] a ys h = absurd (omega arith)
  load-append (x ∷ st) zero ys h = refl
  load-append (x ∷ st) (suc a) ys h = load-append st a ys (omega arith)

  load_last : (st : Store A) (x : A) → load (st ++ x ∷ []) (length st) ≡ some x
  unfolding load
  load_last [] x = refl
  load_last (y ∷ st) x = load_last st x

  load-write : (st : Store A) (a b : Address) (y : A) → a ≢ b → load (write st a y) b ≡ load st b
  unfolding load write
  load-write [] a b y h = refl
  load-write (x ∷ st) zero zero y h = absurd (h refl)
  load-write (x ∷ st) zero (suc b) y h = refl
  load-write (x ∷ st) (suc a) zero y h = refl
  load-write (x ∷ st) (suc a) (suc b) y h = load-write st a b y (omega (arith, h))

  -- A memory that holds at least what another holds.
  pub record Grows (st st' : Store A) : Type 0 where
    pub longer : length st ≤ length st'
    pub keeps : (p : Option Address) → IsIn st p → read st' p ≡ read st p

  pub Grows-refl : (st : Store A) → Grows st st
  Grows-refl st = record { longer = omega arith; keeps = λ p h. refl }

  length-append_one : (st : Store A) (x : A) → length (st ++ x ∷ []) ≡ suc (length st)
  length-append_one [] x = refl
  length-append_one (y ∷ st) x = omega (arith, length-append_one st x)

  length-write : (st : Store A) (a : Address) (y : A) → length (write st a y) ≡ length st
  unfolding write
  length-write [] a y = refl
  length-write (x ∷ st) zero y = refl
  length-write (x ∷ st) (suc a) y = omega (arith, length-write st a y)

  Grows-append : (st : Store A) (x : A) → Grows st (st ++ x ∷ [])
  unfolding read
  Grows-append st x = record {
    longer = omega (arith, length-append_one st x);
    keeps = λ p h.
        elim p as (λ q. IsIn st q → read (st ++ x ∷ []) q ≡ read st q) [
          | none ↦ λ i. refl
          | some a ↦ λ i. load-append st a (x ∷ []) i
        ]
          h;
  }

  -- a copy adds to the memory at most
  pub copy_pointer-Grows :
      (f : A → A) (st : Store A) (p : Option Address) → Grows st (copy_pointer f st p).1
  unfolding copy_pointer allocate
  copy_pointer-Grows f st p = elim (Option-cases (read st p)) [
    | inl e ↦ rw e (Grows-refl st)
    | inr (x, e) ↦ rw e (Grows-append st (f x))
  ]

  loaded_inside : (st : Store A) (a : Address) → a < length st → (x : A) × (load st a ≡ some x)
  unfolding load
  loaded_inside [] a h = absurd (omega arith)
  loaded_inside (x ∷ st) zero h = (x, refl)
  loaded_inside (x ∷ st) (suc a) h = loaded_inside st a (omega arith)

  -- A copied pointer: it is nil, or its target is new and the copy of the target.
  pub record PointerCopied (f : A → A) (st : Store A) (p q : Option Address) (st' : Store A)
      : Type 0 where
    pub grows : Grows st st'
    pub copied : read st' q ≡ Option.map f (read st p)
    pub fresh : IsFresh st q
    pub inside : IsIn st' q

  pub copy_pointer-PointerCopied :
      (f : A → A) (st : Store A) (p : Option Address)
      → IsIn st p
      → PointerCopied f st p (copy_pointer f st p).0 (copy_pointer f st p).1
  unfolding copy_pointer read allocate
  copy_pointer-PointerCopied f st none h = record {
    grows = Grows-refl st;
    copied = refl;
    fresh = tt;
    inside = tt;
  }
  copy_pointer-PointerCopied f st (some a) h =
      let (x, e) = loaded_inside st a h in
      rw e record {
        grows = Grows-append st (f x);
        copied = load_last st (f x) ∙ ap (Option.map f) (sym e);
        fresh = omega arith;
        inside = omega (arith, length-append_one st (f x));
      }

  pub read-write_through :
      (st : Store A) (p q : Option Address) (y : A)
      → IsApart p q
      → read (write_through st p y) q ≡ read st q
  unfolding read write_through
  read-write_through st none q y h = refl
  read-write_through st (some a) none y h = refl
  read-write_through st (some a) (some b) y h = load-write st a b y h

  pub IsFresh-IsApart :
      (st : Store A) (p q : Option Address) → IsIn st p → IsFresh st q → IsApart p q × IsApart q p
  IsFresh-IsApart st none none h k = (tt, tt)
  IsFresh-IsApart st none (some b) h k = (tt, tt)
  IsFresh-IsApart st (some a) none h k = (tt, tt)
  IsFresh-IsApart st (some a) (some b) h k = (omega arith, omega arith)
