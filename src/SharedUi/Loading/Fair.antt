-- ===== src/SharedUi/Loading/Fair.antt =====
-- What one event of the loading does to the promise.
use editor_sh.Prelude.{ℕ, Bool, true, false, ◌+◌, List, [], ◌∷◌, ◌++◌, ◌≡◌, arith}
use editor_sh.SharedUi.Loading.{
  Promise, PromiseState, pending, resolved, rejected, MonacoLoader, resolve, reject, then_call,
  on_got_amd_loader, start_loading, load_monaco_library, on_load_script, on_error_script,
  on_modules, LoadEvent, component,
}
use editor_sh.SharedUi.Loading.Once.{number}

-- The components that came, after those that had come before
abbrev pub callers : List ℕ → List LoadEvent → List ℕ
callers before [] = before
callers before (component c ∷ events) = callers (before ++ (c ∷ [])) events
callers before (_ ∷ events) = callers before events

-- Of the components that came, all wait, or all were served in their order, or none ever is.
abbrev pub IsFair : Promise → List ℕ → Type 0
IsFair p cs = elim p.state [
  | pending ↦ (p.served ≡ []) × (p.waiting ≡ cs)
  | resolved ↦ p.served ≡ cs
  | rejected ↦ p.served ≡ []
]

-- What is under way: one thing for a pending promise that was started, and else nothing.
abbrev pub IsGoing : Bool → PromiseState → ℕ → Type 0
IsGoing true pending n = n ≡ 1
IsGoing false pending n = n ≡ 0
IsGoing true _ n = n ≡ 0
IsGoing false _ n = ⊥

pub record IsLoading (l : MonacoLoader) (cs : List ℕ) : Type 0 where
  pub fair : IsFair l.monaco_load_promise cs
  pub going : IsGoing l.monaco_loading l.monaco_load_promise.state (number l.listens + l.coming)

then-IsFair :
    (c : ℕ) (p : Promise) (cs : List ℕ) → IsFair p cs → IsFair (then_call c p) (cs ++ (c ∷ []))
unfolding then_call
then-IsFair c p cs h = ground arith

resolve-IsFair : (p : Promise) (cs : List ℕ) → IsFair p cs → IsFair (resolve p) cs
unfolding resolve
resolve-IsFair p cs h = ground arith

reject-IsFair : (p : Promise) (cs : List ℕ) → IsFair p cs → IsFair (reject p) cs
unfolding reject
reject-IsFair p cs h = ground arith

pub load-IsGoing :
    (c : ℕ) (l : MonacoLoader)
    → IsGoing l.monaco_loading l.monaco_load_promise.state (number l.listens + l.coming)
    → let after = load_monaco_library c l in
      IsGoing after.monaco_loading after.monaco_load_promise.state
        (number after.listens + after.coming)
unfolding load_monaco_library start_loading on_got_amd_loader then_call resolve
load-IsGoing c l h = ground arith

pub script-IsGoing :
    (l : MonacoLoader)
    → IsGoing l.monaco_loading l.monaco_load_promise.state (number l.listens + l.coming)
    → let after = on_load_script l in
      IsGoing after.monaco_loading after.monaco_load_promise.state
        (number after.listens + after.coming)
unfolding on_load_script on_got_amd_loader
script-IsGoing l h = ground arith

pub failure-IsGoing :
    (l : MonacoLoader)
    → IsGoing l.monaco_loading l.monaco_load_promise.state (number l.listens + l.coming)
    → let after = on_error_script l in
      IsGoing after.monaco_loading after.monaco_load_promise.state
        (number after.listens + after.coming)
unfolding on_error_script reject
failure-IsGoing l h = ground arith

pub modules-IsGoing :
    (l : MonacoLoader)
    → IsGoing l.monaco_loading l.monaco_load_promise.state (number l.listens + l.coming)
    → let after = on_modules l in
      IsGoing after.monaco_loading after.monaco_load_promise.state
        (number after.listens + after.coming)
unfolding on_modules resolve
modules-IsGoing l h = ground arith

pub load-IsFair :
    (c : ℕ) (l : MonacoLoader) (cs : List ℕ)
    → IsFair l.monaco_load_promise cs
    → IsFair (load_monaco_library c l).monaco_load_promise (cs ++ (c ∷ []))
unfolding load_monaco_library start_loading on_got_amd_loader
load-IsFair c l cs h =
    let p = l.monaco_load_promise in
    ground (arith, then-IsFair c p cs h, then-IsFair c (resolve p) cs (resolve-IsFair p cs h))

pub script-IsFair :
    (l : MonacoLoader) (cs : List ℕ)
    → IsFair l.monaco_load_promise cs
    → IsFair (on_load_script l).monaco_load_promise cs
unfolding on_load_script on_got_amd_loader
script-IsFair l cs h = ground arith

pub failure-IsFair :
    (l : MonacoLoader) (cs : List ℕ)
    → IsFair l.monaco_load_promise cs
    → IsFair (on_error_script l).monaco_load_promise cs
unfolding on_error_script
failure-IsFair l cs h = ground (arith, reject-IsFair l.monaco_load_promise cs h)

pub modules-IsFair :
    (l : MonacoLoader) (cs : List ℕ)
    → IsFair l.monaco_load_promise cs
    → IsFair (on_modules l).monaco_load_promise cs
unfolding on_modules
modules-IsFair l cs h = ground (arith, resolve-IsFair l.monaco_load_promise cs h)
