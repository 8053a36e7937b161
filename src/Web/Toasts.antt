-- ===== src/Web/Toasts.antt =====
-- The notices on the screen: `toast` and `remove` of apps/web/src/components/ui/toast.tsx. The random
-- id is an argument. The browser's timeouts are part of the state; their handles count from 1.
pub mod Keyed
pub mod Timed
use aurora_scholar.Prelude.{
  ℕ, ◌+◌, ◌*◌, ◌≤◌, ◌≡◌, refl, Bool, true, false, not, Option, none, some, List, [], ◌∷◌, ◌++◌,
  if◌then◌else◌, ◌==◌, nat_eq, list_eq, take, select, length, arith, min, suc, zero, ◌≢◌, beq_ne,
  beq_refl, length-take, In, In-select, In-take, ◌⊎◌, inl, inr,
}
use aurora_scholar.Text.{Text}
use aurora_scholar.JsMap
use aurora_scholar.JsMap.{JsMap}

pub data ToastType : Type 0 where
  success_toast error_toast info_toast : ToastType

pub record ToastInput : Type 0 where
  pub kind : Option ToastType
  pub title : Option Text
  pub message : Text
  pub duration_ms : Option ℕ

pub record ToastItem : Type 0 where
  pub id : Text
  pub kind : ToastType
  pub title : Option Text
  pub message : Text
  pub duration_ms : ℕ

-- A timeout that `setTimeout` has set and that has not run: its handle, its delay, and the notice that
-- its callback removes.
pub record Timeout : Type 0 where
  pub handle : ℕ
  pub delay : ℕ
  pub target : Text

-- The state of the provider, and of the browser's timeouts with the handle that is given next.
pub record Toasts : Type 0 where
  pub items : List ToastItem
  -- The handle of the timeout of each notice.
  pub timers : JsMap ℕ
  pub pending : List Timeout
  pub next : ℕ

abbrev default {ℓ} : {A : Type ℓ} → Option A → A → A
default none a = a
default (some b) a = b

unfoldable pub item_of : Text → ToastInput → ToastItem
item_of id input = record {
  id = id;
  kind = default input.kind info_toast;
  title = input.title;
  message = input.message;
  duration_ms = default input.duration_ms 4500;
}

unfoldable pub toast : (id : Text) → ToastInput → Toasts → Toasts
unfolding item_of
toast id input s =
    let item = item_of id input in
    let timeout : Timeout = record { handle = s.next; delay = item.duration_ms; target = id } in
    record {
      items = take 5 (item ∷ s.items);
      timers = JsMap.set id s.next s.timers;
      pending = timeout ∷ s.pending;
      next = suc s.next;
    }

abbrev pub is_other : Text → ToastItem → Bool
is_other id t = not (t.id == id)

abbrev pub has_other_handle : ℕ → Timeout → Bool
has_other_handle handle timeout = not (timeout.handle == handle)

-- `if (timer) { clearTimeout(timer); delete timers.current[id]; }`; no handle is 0.
unfoldable pub clear_timer : Option ℕ → Text → Toasts → Toasts
clear_timer none id s = s
clear_timer (some timer) id s = record s {
  timers = JsMap.delete id s.timers;
  pending = select (has_other_handle timer) s.pending;
}

unfoldable pub remove : Text → Toasts → Toasts
remove id s =
    let cleared = clear_timer (JsMap.get id s.timers) id s in
    record cleared { items = select (is_other id) s.items }

-- The browser runs a timeout: it is no longer pending, and the callback `() => remove(id)` runs.
unfoldable pub fire : Timeout → Toasts → Toasts
fire timeout s =
    remove timeout.target
      (record s { pending = select (has_other_handle timeout.handle) s.pending })

abbrev pub first_toasts : Toasts
first_toasts = record { items = []; timers = []; pending = []; next = 1 }

-- What happens to the provider: a call of `toast`, a removal by hand, or a timeout that runs.
pub data Shown : Toasts → Type 0 where
  start : Shown first_toasts
  toasted : {s : Toasts} (id : Text) (input : ToastInput) → Shown s → Shown (toast id input s)
  removed : {s : Toasts} (id : Text) → Shown s → Shown (remove id s)
  fired : {s : Toasts} (timeout : Timeout) → In timeout s.pending → Shown s → Shown (fire timeout s)
