-- ===== src/Pages/Edit/Visit/Histories.antt =====
-- One page after the other, over any events of the parts of a page, of the router and of the sockets.
use editor_sh.Prelude.{
  ℕ, ◌≤◌, ◌+◌, map, String, true, false, List, [], ◌∷◌, foldl, ◌≡◌, refl, sym, subst, arith, inl,
}
use editor_sh.Service.Endpoint.{Location}
use editor_sh.Service.Message.Registry.{no_listeners, adaptor}
use editor_sh.Service.Message.Calls.{count}
use editor_sh.Store.Codepad.Connection.{status, socket_opened, socket_failed, socket_ended, start}
use editor_sh.Store.Codepad.Connection.Rest.{is_busy}
use editor_sh.Store.Codepad.Consistency.{idle}
use editor_sh.Pages.Edit.Visit.{
  Visit, EditPage, open_page, on_destroy, conn_step, on_editor_did_mount, on_terminal_did_mount,
  turn_to,
}
use editor_sh.Pages.Edit.Visit.Tidy.{IsTidy, removals, times, terminal_listeners, on_destroy-IsTidy}
use editor_sh.Pages.Edit.Visit.Fresh.{IsFresh, on_destroy-attachments}
use editor_sh.Pages.Edit.Visit.Orderly.{
  holds_room, IsOrderly, socket-IsOrderly, on_destroy-rest, on_destroy-subscriptions,
  on_destroy-IsOrderly, turn_to-IsOrderly,
}
use editor_sh.Pages.Edit.Visit.Connecting.{on_did_mount-IsOrderly}

-- A part of the page is mounted; the router leaves the page, or replaces it by the page of another
-- room; or a socket does something.
pub data Happening : Type 0 where
  editor_did_mount terminal_did_mount destroyed : Happening
  turned : String → Happening
  opened failed closed : ℕ → Happening

unfoldable pub happen : Location → Visit → Happening → Visit
unfolding on_editor_did_mount on_terminal_did_mount on_destroy conn_step open_page
happen loc v editor_did_mount = on_editor_did_mount loc v
happen loc v terminal_did_mount = on_terminal_did_mount loc v
happen loc v destroyed = on_destroy loc v
happen loc v (turned key) = turn_to key (on_destroy loc v)
happen loc v (opened c) = conn_step loc (socket_opened c) v
happen loc v (failed c) = conn_step loc (socket_failed c) v
happen loc v (closed c) = conn_step loc (socket_ended c) v

-- The first page, before anything was connected
unfoldable pub first_visit : String → Visit
unfolding open_page
first_visit key = record {
  page = open_page key;
  conn = start;
  messages = λ _. no_listeners;
  attached = [];
  terminal = 0;
  attachments = [];
  closures = 0;
}

-- A page with other marks
marked-IsOrderly :
    (page : EditPage) (v : Visit)
    → page.subscriptions ≡ v.page.subscriptions
    → IsOrderly v
    → IsOrderly (record v { page = page })
marked-IsOrderly page v e h = record {
  consistent = h.consistent;
  tidy = λ c. subst (λ ss. IsTidy c (v.messages c) ss v.attachments) (sym e) (h.tidy c);
  fresh = λ c. subst (λ ss. IsFresh c ss v.attachments v.closures) (sym e) (h.fresh c);
  held = λ b. subst (λ ss. holds_room ss ≡ true) (sym e) (h.held b);
}

happen-IsOrderly :
    (loc : Location) (what : Happening) (v : Visit) → IsOrderly v → IsOrderly (happen loc v what)
unfolding happen
happen-IsOrderly loc editor_did_mount v h =
    on_did_mount-IsOrderly loc (record v { page = record v.page { editor_mounted = true } })
      (marked-IsOrderly (record v.page { editor_mounted = true }) v refl h)
happen-IsOrderly loc terminal_did_mount v h =
    on_did_mount-IsOrderly loc (record v { page = record v.page { terminal_mounted = true } })
      (marked-IsOrderly (record v.page { terminal_mounted = true }) v refl h)
happen-IsOrderly loc destroyed v h = on_destroy-IsOrderly loc v h
happen-IsOrderly loc (turned key) v h =
    turn_to-IsOrderly key (on_destroy loc v) (on_destroy-subscriptions loc v)
      (on_destroy-IsOrderly loc v h)
happen-IsOrderly loc (opened c) v h = socket-IsOrderly loc (socket_opened c) v refl h
happen-IsOrderly loc (failed c) v h = socket-IsOrderly loc (socket_failed c) v refl h
happen-IsOrderly loc (closed c) v h = socket-IsOrderly loc (socket_ended c) v refl h

foldl-happen-IsOrderly :
    (loc : Location) (history : List Happening) (v : Visit)
    → IsOrderly v
    → IsOrderly (foldl (happen loc) v history)
foldl-happen-IsOrderly loc [] v h = h
foldl-happen-IsOrderly loc (what ∷ later) v h =
    foldl-happen-IsOrderly loc later (happen loc v what) (happen-IsOrderly loc what v h)

first_visit-IsOrderly : (key : String) → IsOrderly (first_visit key)
unfolding first_visit
first_visit-IsOrderly key = record {
  consistent = record { settled = idle refl refl; alone = λ j. inl refl };
  tidy = λ c. record {
    known = λ k. omega arith;
    in_step = record { adaptors = refl; ascending = omega arith };
  };
  fresh = λ c. record { once = λ l. omega arith; unused = λ l n. omega arith };
  held = λ b. cc;
}

pub visits-IsOrderly :
    (loc : Location) (key : String) (history : List Happening)
    → IsOrderly (foldl (happen loc) (first_visit key) history)
visits-IsOrderly loc key history =
    foldl-happen-IsOrderly loc history (first_visit key) (first_visit-IsOrderly key)

-- After any history of pages, a page that is destroyed has undone what it did itself: it has no
-- subscription left, the store neither joins a room nor is in one, and the message listeners that are
-- left on a client, in which order the socket calls their adaptors and no others, are all listeners of
-- terminals that were attached to it: each that the page was to remove is gone, and none is left
-- twice.
pub on_destroy_lem :
    (loc : Location) (key : String) (history : List Happening)
    → let w = foldl (happen loc) (first_visit key) history in
      let v = on_destroy loc w in
      (v.page.subscriptions ≡ [])
      × (is_busy (status v.conn) ≡ false)
      × ((c : ℕ)
          → ((v.messages c).socket_listeners ≡ map adaptor (v.messages c).message_listeners)
            × ((l : ℕ)
                → count l (v.messages c).message_listeners
                  ≤ times l (terminal_listeners c v.attachments))
            × ((l : ℕ)
                → count l (v.messages c).message_listeners
                    + times l (removals c w.page.subscriptions)
                  ≤ 1))
on_destroy_lem loc key history =
    let w = foldl (happen loc) (first_visit key) history in
    let h = visits-IsOrderly loc key history in
    (
      on_destroy-subscriptions loc w,
      on_destroy-rest loc w h,
      λ c.
          let tidy = on_destroy-IsTidy loc c w (h.tidy c) in
          let fresh =
            subst (λ cs. IsFresh c w.page.subscriptions cs w.closures)
              (sym (on_destroy-attachments loc w)) (h.fresh c) in
          (
            tidy.in_step.adaptors,
            λ l. omega (arith, tidy.known l),
            λ l. omega (arith, tidy.known l, fresh.once l),
          ),
    )
