-- ===== src/Web/Toasts/Keyed.antt =====
-- The timeouts of the notices and their handles.
use aurora_scholar.Prelude.{
  ◌<◌, ◌≡◌, ◌≢◌, refl, sym, ◌∙◌, inl, inr, some, none, Option, Bool-cases, ◌∷◌, ◌==◌, nat_eq,
  list_eq, select, arith, In, In-select, select-In, List, ℕ, list_beq_iff,
}
use aurora_scholar.Text.{Text}
use aurora_scholar.JsMap
use aurora_scholar.JsMap.{JsMap}
use aurora_scholar.Web.Toasts.{
  ToastItem, Toasts, ToastInput, Timeout, item_of, toast, clear_timer, remove, fire,
  has_other_handle, Shown, start, toasted, removed, fired,
}

-- A timeout is pending that is the notice's own: it was set with its duration, for its id.
pub record HasTimeout (pending : List Timeout) (t : ToastItem) : Type 0 where
  pub timeout : Timeout
  pub is_pending : In timeout pending
  pub target : timeout.target ≡ t.id
  pub delay : timeout.delay ≡ t.duration_ms

-- Every pending timeout with this handle removes this id.
abbrev pub IsHandleOf : List Timeout → ℕ → Text → Type 0
IsHandleOf pending handle id = (x : Timeout) → In x pending → x.handle ≡ handle → x.target ≡ id

-- Handles are fresh, and each belongs to one id.
pub record IsKeyed (s : Toasts) : Type 0 where
  pub older : (x : Timeout) → In x s.pending → x.handle < s.next
  pub single : (x : Timeout) → In x s.pending → IsHandleOf s.pending x.handle x.target
  pub known :
      (id : Text) (handle : ℕ)
      → JsMap.get id s.timers ≡ some handle
      → (handle < s.next) × IsHandleOf s.pending handle id

abbrev pub without : ℕ → List Timeout → List Timeout
without handle pending = select (has_other_handle handle) pending

In-without : (handle : ℕ) (x : Timeout) (xs : List Timeout) → In x (without handle xs) → In x xs
In-without handle x xs i = (In-select (has_other_handle handle) x xs i).0

pub without-IsKeyed :
    (handle : ℕ) (s : Toasts)
    → IsKeyed s
    → IsKeyed (record s { pending = without handle s.pending })
without-IsKeyed handle s k = record {
  older = λ x i. k.older x (In-without handle x s.pending i);
  single =
      λ x i y j. k.single x (In-without handle x s.pending i) y (In-without handle y s.pending j);
  known = λ id h e.
      let (before, mine) = k.known id h e in
      (before, λ x i. mine x (In-without handle x s.pending i));
}

pub without-HasTimeout :
    (handle : ℕ) (id : Text) (pending : List Timeout) (t : ToastItem)
    → IsHandleOf pending handle id
    → t.id ≢ id
    → HasTimeout pending t
    → HasTimeout (without handle pending) t
without-HasTimeout handle id pending t mine apart h =
    elim (Bool-cases (h.timeout.handle == handle)) [
      | inl same ↦ absurd (
          apart (
            sym h.target
            ∙ mine h.timeout h.is_pending ((nat_eq.beq_iff h.timeout.handle handle).0 same)))
      | inr other ↦ record {
        timeout = h.timeout;
        is_pending =
            select-In (has_other_handle handle) h.timeout pending h.is_pending (rw other refl);
        target = h.target;
        delay = h.delay;
      }
    ]

delete-IsKeyed :
    (id : Text) (s : Toasts) → IsKeyed s → IsKeyed (record s { timers = JsMap.delete id s.timers })
delete-IsKeyed id s k = record {
  older = k.older;
  single = k.single;
  known = λ j h e. elim (Bool-cases (id == j)) [
    | inl same ↦ cc (rw (JsMap.get-delete id j s.timers, same) at e)
    | inr other ↦ k.known j h (rw (JsMap.get-delete id j s.timers, other) at e)
  ];
}

clear_timer-IsKeyed :
    (timer : Option ℕ) (id : Text) (s : Toasts) → IsKeyed s → IsKeyed (clear_timer timer id s)
unfolding clear_timer
clear_timer-IsKeyed none id s k = k
clear_timer-IsKeyed (some h) id s k = delete-IsKeyed id _ (without-IsKeyed h s k)

pub clear_timer-HasTimeout :
    (timer : Option ℕ) (id : Text) (s : Toasts) (t : ToastItem)
    → JsMap.get id s.timers ≡ timer
    → IsKeyed s
    → t.id ≢ id
    → HasTimeout s.pending t
    → HasTimeout (clear_timer timer id s).pending t
unfolding clear_timer
clear_timer-HasTimeout none id s t e k apart h = h
clear_timer-HasTimeout (some handle) id s t e k apart h =
    without-HasTimeout handle id s.pending t (k.known id handle e).1 apart h

remove-IsKeyed : (id : Text) (s : Toasts) → IsKeyed s → IsKeyed (remove id s)
unfolding remove
remove-IsKeyed id s k =
    let c = clear_timer-IsKeyed (JsMap.get id s.timers) id s k in
    record { older = c.older; single = c.single; known = c.known }

-- The timeout of a new notice has a handle that no pending one has.
newest-IsHandleOf :
    (newest : Timeout) (pending : List Timeout)
    → ((x : Timeout) → In x pending → x.handle < newest.handle)
    → IsHandleOf (newest ∷ pending) newest.handle newest.target
newest-IsHandleOf newest pending older x (inl e) same = rw (← e) refl
newest-IsHandleOf newest pending older x (inr i) same = absurd (omega (arith, older x i, same))

older-IsHandleOf :
    (newest : Timeout) (pending : List Timeout) (handle : ℕ) (id : Text)
    → handle < newest.handle
    → IsHandleOf pending handle id
    → IsHandleOf (newest ∷ pending) handle id
older-IsHandleOf newest pending handle id before mine x (inl e) same =
    let same' : newest.handle ≡ handle = rw (← e) at same in absurd (omega arith)
older-IsHandleOf newest pending handle id before mine x (inr i) same = mine x i same

toast-IsKeyed :
    (id : Text) (input : ToastInput) (s : Toasts) → IsKeyed s → IsKeyed (toast id input s)
unfolding toast
toast-IsKeyed id input s k =
    let newest : Timeout = record {
      handle = s.next;
      delay = (item_of id input).duration_ms;
      target = id;
    } in
    record {
      older = λ x i. elim i [ inl e ↦ rw (← e) (omega arith) | inr j ↦ omega (arith, k.older x j) ];
      single = λ x i. elim i [
        | inl e ↦ rw (← e) (newest-IsHandleOf newest s.pending k.older)
        | inr j ↦ older-IsHandleOf newest s.pending x.handle x.target (k.older x j) (k.single x j)
      ];
      known = λ j h e. elim (Bool-cases (id == j)) [
        | inl same ↦
            let found : some s.next ≡ some h = rw (JsMap.get-set id j s.next s.timers, same) at e in
            let is_next : s.next ≡ h = cc in
            rw (← is_next, ← (list_beq_iff id j).0 same)
              (omega arith, newest-IsHandleOf newest s.pending k.older)
        | inr other ↦
            let (before, mine) =
              k.known j h (rw (JsMap.get-set id j s.next s.timers, other) at e) in
            (omega arith, older-IsHandleOf newest s.pending h j before mine)
      ];
    }

fire-IsKeyed : (timeout : Timeout) (s : Toasts) → IsKeyed s → IsKeyed (fire timeout s)
unfolding fire
fire-IsKeyed timeout s k = remove-IsKeyed timeout.target _ (without-IsKeyed timeout.handle s k)

pub Shown-IsKeyed : (s : Toasts) → Shown s → IsKeyed s
unfolding JsMap.get
Shown-IsKeyed _ start = record {
  older = λ x i. absurd i;
  single = λ x i. absurd i;
  known = λ id handle e. cc;
}
Shown-IsKeyed _ (toasted {s} id input h) = toast-IsKeyed id input s (Shown-IsKeyed s h)
Shown-IsKeyed _ (removed {s} id h) = remove-IsKeyed id s (Shown-IsKeyed s h)
Shown-IsKeyed _ (fired {s} timeout i h) = fire-IsKeyed timeout s (Shown-IsKeyed s h)
