-- ===== src/Web/Toasts/Timed.antt =====
-- What holds of the notices on the screen, whatever has been shown and taken off.
use aurora_scholar.Prelude.{
  ◌≤◌, ◌≡◌, ◌≢◌, refl, sym, ◌∙◌, inl, inr, [], ◌∷◌, nat_eq, list_eq, select, length, arith,
  length-take, In, In-select, select-In, In-take, beq_ne, not_ne_of_eq, Bool, List,
}
use aurora_scholar.Text.{Text}
use aurora_scholar.JsMap
use aurora_scholar.JsMap.{JsMap}
use aurora_scholar.Web.Toasts.{
  ToastItem, Toasts, ToastInput, Timeout, item_of, toast, remove, fire, is_other, has_other_handle,
  Shown, start, toasted, removed, fired,
}
use aurora_scholar.Web.Toasts.Keyed.{
  HasTimeout, IsKeyed, without-HasTimeout, without-IsKeyed, clear_timer-HasTimeout, Shown-IsKeyed,
}

length-select : {A : Type 0} (test : A → Bool) (xs : List A) → length (select test xs) ≤ length xs
length-select test [] = omega arith
length-select test (x ∷ xs) = ground (arith, length-select test xs)

remove-items : (id : Text) (s : Toasts) → (remove id s).items ≡ select (is_other id) s.items
unfolding remove
remove-items id s = refl

remove-In :
    (id : Text) (s : Toasts) (t : ToastItem) → In t (remove id s).items → In t s.items × (t.id ≢ id)
remove-In id s t i =
    let (was, different) = In-select (is_other id) t s.items (rw (remove-items id s) at i) in
    (was, λ same. cc (not_ne_of_eq t.id id same, different))

remove-HasTimeout :
    (id : Text) (s : Toasts) (t : ToastItem)
    → IsKeyed s
    → t.id ≢ id
    → HasTimeout s.pending t
    → HasTimeout (remove id s).pending t
unfolding remove
remove-HasTimeout id s t k apart h =
    clear_timer-HasTimeout (JsMap.get id s.timers) id s t refl k apart h

fire-HasTimeout :
    (timeout : Timeout) (s : Toasts) (t : ToastItem)
    → In timeout s.pending
    → IsKeyed s
    → t.id ≢ timeout.target
    → HasTimeout s.pending t
    → HasTimeout (fire timeout s).pending t
unfolding fire
fire-HasTimeout timeout s t i k apart h =
    remove-HasTimeout timeout.target _ t (without-IsKeyed timeout.handle s k) apart
      (without-HasTimeout timeout.handle timeout.target s.pending t (k.single timeout i) apart h)

fire-In :
    (timeout : Timeout) (s : Toasts) (t : ToastItem)
    → In t (fire timeout s).items
    → In t s.items × (t.id ≢ timeout.target)
unfolding fire
fire-In timeout s t i = remove-In timeout.target _ t i

toast-HasTimeout :
    (id : Text) (input : ToastInput) (s : Toasts) (t : ToastItem)
    → (In t s.items → HasTimeout s.pending t)
    → In t (toast id input s).items
    → HasTimeout (toast id input s).pending t
unfolding toast
toast-HasTimeout id input s t old i = elim (In-take 5 t (item_of id input ∷ s.items) i) [
  | inl e ↦ record {
    timeout = record { handle = s.next; delay = (item_of id input).duration_ms; target = id };
    is_pending = inl refl;
    target = rw (← e) (unfold item_of in refl);
    delay = rw (← e) refl;
  }
  | inr j ↦
      let h = old j in
      record {
        timeout = h.timeout;
        is_pending = inr h.is_pending;
        target = h.target;
        delay = h.delay;
      }
]

Shown-HasTimeout : (s : Toasts) → Shown s → (t : ToastItem) → In t s.items → HasTimeout s.pending t
Shown-HasTimeout _ start t i = absurd i
Shown-HasTimeout _ (toasted {s} id input h) t i =
    toast-HasTimeout id input s t (Shown-HasTimeout s h t) i
Shown-HasTimeout _ (removed {s} id h) t i =
    let (was, apart) = remove-In id s t i in
    remove-HasTimeout id s t (Shown-IsKeyed s h) apart (Shown-HasTimeout s h t was)
Shown-HasTimeout _ (fired {s} timeout j h) t i =
    let (was, apart) = fire-In timeout s t i in
    fire-HasTimeout timeout s t j (Shown-IsKeyed s h) apart (Shown-HasTimeout s h t was)

remove-length : (id : Text) (s : Toasts) → length (remove id s).items ≤ length s.items
remove-length id s = rw (remove-items id s) (length-select (is_other id) s.items)

Shown-length : (s : Toasts) → Shown s → length s.items ≤ 5
unfolding toast fire
Shown-length _ start = omega arith
Shown-length _ (toasted {s} id input h) = omega (arith, length-take 5 (item_of id input ∷ s.items))
Shown-length _ (removed {s} id h) = omega (arith, remove-length id s, Shown-length s h)
Shown-length _ (fired {s} timeout i h) = omega (
  arith,
  remove-length timeout.target
      (record s { pending = select (has_other_handle timeout.handle) s.pending }),
  Shown-length s h,
)

-- A timeout of the notice's duration is pending that takes off this notice and those of its id, and
-- leaves every other one.
pub record IsTimed (s : Toasts) (t : ToastItem) : Type 0 where
  pub timeout : Timeout
  pub is_pending : In timeout s.pending
  pub delay : timeout.delay ≡ t.duration_ms
  pub takes_off : ¬ (In t (fire timeout s).items)
  pub spares :
      (other : ToastItem) → In other s.items → other.id ≢ t.id → In other (fire timeout s).items

HasTimeout-IsTimed : (s : Toasts) (t : ToastItem) → HasTimeout s.pending t → IsTimed s t
unfolding fire
HasTimeout-IsTimed s t h =
    let before = record s { pending = select (has_other_handle h.timeout.handle) s.pending } in
    record {
      timeout = h.timeout;
      is_pending = h.is_pending;
      delay = h.delay;
      takes_off = λ i. (remove-In h.timeout.target before t i).1 (sym h.target);
      spares = λ other i apart. rw (remove-items h.timeout.target before) (
          select-In (is_other h.timeout.target) other s.items i
            (rw (beq_ne other.id h.timeout.target (λ e. apart (e ∙ h.target))) refl));
    }

-- However notices have been shown, removed by hand and taken off by timeouts, at most five are on the
-- screen, and for each of them a timeout of its own duration is pending: when it runs, the notice is
-- taken off, and every notice with another id stays.
pub shown_lem :
    (s : Toasts) → Shown s → (length s.items ≤ 5) × ((t : ToastItem) → In t s.items → IsTimed s t)
shown_lem s h = (Shown-length s h, λ t i. HasTimeout-IsTimed s t (Shown-HasTimeout s h t i))
