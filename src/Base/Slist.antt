-- ===== src/Base/Slist.antt =====
-- base/slist.hpp: `slist`, a singly linked list with a tail pointer, on an explicit heap of nodes.
pub mod Linked
pub mod Ops
pub mod Free
pub mod Join
pub mod Fifo
mod Tests
use netlib.Common.{
  ℕ, zero, suc, ◌+◌, ◌-◌, Bool, Option, none, some, true, false, List, [], ◌∷◌, ◌==◌, if◌then◌else◌,
}

pub record Node (A : Type 0) : Type 0 where
  pub val : A
  pub next : Option ℕ

-- The nodes by address, and the address that `new` gives out next. A freed node is `none`.
pub record Heap (A : Type 0) : Type 0 where
  pub brk : ℕ
  pub cell : ℕ → Option (Node A)

-- `NULL` is `none`.
pub record Slist : Type 0 where
  pub count : ℕ
  pub head : Option ℕ
  pub tail : Option ℕ

-- `fault` is the use of a null pointer or of a freed node; `lost` is a loop out of fuel.
pub data Run (R : Type 0) : Type 0 where
  done : R → Run R
  fault : Run R
  lost : Run R

infixl 5 ◌>>=◌
abbrev pub ◌>>=◌ : {R S : Type 0} → Run R → (R → Run S) → Run S
done r >>= f = f r
fault >>= f = fault
lost >>= f = lost

abbrev pub same : Option ℕ → Option ℕ → Bool
same none none = true
same none (some b) = false
same (some a) none = false
same (some a) (some b) = a == b

abbrev pub empty_list : Slist
empty_list = record { count = 0; head = none; tail = none }

-- `if (!_head) _head = _tail`
abbrev pub or_tail : Option ℕ → Option ℕ → Option ℕ
or_tail none q = q
or_tail (some a) q = some a

abbrev pub pushed : Slist → Option ℕ → Slist
pushed l p = record { count = l.count + 1; head = or_tail l.head p; tail = p }

unfoldable pub size : Slist → ℕ
size l = l.count

unfoldable pub empty : Slist → Bool
empty l = l.count == 0

-- `swap` of two different lists.
unfoldable pub swap_lists : Slist × Slist → Slist × Slist
swap_lists (l, o) = (o, l)

module _ {A : Type 0} where
  abbrev pub update : (ℕ → Option (Node A)) → ℕ → Option (Node A) → ℕ → Option (Node A)
  update f a n b = if a == b then n else f b

  -- `p->...`
  abbrev pub load : Option ℕ → Heap A → Run (Node A)
  load none h = fault
  load (some a) h = elim (h.cell a) [ none ↦ fault | some n ↦ done n ]

  -- `p->next = q`
  abbrev pub set_next : Option ℕ → Option ℕ → Heap A → Run (Heap A)
  set_next none q h = fault
  set_next (some a) q h = elim (h.cell a) [
    | none ↦ fault
    | some n ↦ done (record h { cell = update h.cell a (some (record n { next = q })) })
  ]

  -- `delete p`
  abbrev pub delete : Option ℕ → Heap A → Run (Heap A)
  delete none h = done h
  delete (some a) h = elim (h.cell a) [
    | none ↦ fault
    | some n ↦ done (record h { cell = update h.cell a none })
  ]

  -- `new Node` with its two fields set.
  abbrev pub new_node : A → Heap A → Heap A
  new_node t h = record {
    brk = suc h.brk;
    cell = update h.cell h.brk (some (record { val = t; next = none }));
  }

  abbrev pub push_at : Option ℕ → A → Slist → Heap A → Run (Slist × Heap A)
  push_at none t l h = done (pushed l (some h.brk), new_node t h)
  push_at (some b) t l h = do
    h' ← set_next (some b) (some h.brk) (new_node t h)
    done (pushed l (some h.brk), h')

  unfoldable pub push_back : A → Slist → Heap A → Run (Slist × Heap A)
  push_back t l h = push_at l.tail t l h

  unfoldable pub front : Slist → Heap A → Run A
  front l h = do n ← load l.head h; done n.val

  abbrev pub pop_at : Option ℕ → Slist → Heap A → Run (Slist × Heap A)
  pop_at none l h = done (l, h)
  pop_at (some a) l h = do
    n ← load (some a) h
    h' ← delete (some a) h
    done (
      record {
        count = l.count - 1;
        head = n.next;
        tail = if same (some a) l.tail then n.next else l.tail;
      },
      h',
    )

  unfoldable pub pop_front : Slist → Heap A → Run (Slist × Heap A)
  pop_front l h = pop_at l.head l h

  -- The loop of `clear` and of the destructor, on fuel.
  unfoldable pub free_from : ℕ → Option ℕ → Heap A → Run (Heap A)
  free_from zero p h = lost
  free_from (suc f) none h = done h
  free_from (suc f) (some a) h = do
    n ← load (some a) h
    h' ← delete (some a) h
    free_from f n.next h'

  -- `_tail` stays.
  unfoldable pub clear : ℕ → Slist → Heap A → Run (Slist × Heap A)
  clear f l h = do h' ← free_from f l.head h; done (record l { count = 0; head = none }, h')

  unfoldable pub destroy : ℕ → Slist → Heap A → Run (Slist × Heap A)
  destroy f l h = do h' ← free_from f l.head h; done (empty_list, h')

  abbrev pub join_at : Option ℕ → Slist → Slist → Heap A → Run (Slist × Heap A)
  join_at none l o h = done (record { count = l.count + o.count; head = o.head; tail = o.tail }, h)
  join_at (some b) l o h = do
    h' ← set_next (some b) o.head h
    done (record l { count = l.count + o.count; tail = o.tail }, h')

  -- `join` with another list, which it leaves as `empty_list`.
  unfoldable pub join : Slist → Slist → Heap A → Run (Slist × Slist × Heap A)
  join l o h = do (l', h') ← join_at l.tail l o h; done (l', empty_list, h')
