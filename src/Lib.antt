-- ===== src/Lib.antt =====
-- A verification library for the browser client of editor.sh, a shared code editor: its store of
-- actions, reducers and effects, the services that the effects call, the connection of the codepad,
-- and the pages and components that use them. The modelled code is under
-- yeditor_client/src/app/website; paths below are from there.
--
-- The parts and their files
--   * Models: the tables of languages and database engines (shared/models). A `LanguageList.find`
--     is `get_language_by_id`; the sample programs stand by their names.
--   * Service.Jwt: the token store (shared/services/api/jwt.service.ts), `getToken`, `saveToken` and
--     `destroyToken` over a storage of the browser that can be out of reach or full.
--   * Service.Endpoint: the address of a room (`CodepadService.makeEndPointUrl`).
--   * Service.Client: a client of a room with its socket and its listeners (`CodepadClient` in
--     shared/services/codepad/codepad.service.ts), but for its messages.
--   * Service.Graphql: the calls of shared/services/api/graphql.service.ts, the header that they are
--     given, what is read from a reply, and `translateErrorResponse`.
--   * Service.Api: the requests of shared/services/api/api.service.ts, `getHttpHeaders` and
--     `handleUnauthorizedError`.
--   * Service.Message: the messages of a room, `sendMessage` and the send functions, and
--     `createMessageAdaptor`, over the codecs of JSON and gzip, which are parameters.
--     Service.Message.Registry has the message listeners of a client.
--   * Service.Local: `LocalStorage` of shared/services/common/common.service.ts, for one key.
--   * Service.Params: `HttpParamsConverter` of shared/services/common/common.service.ts; an object has a
--     number for its identity.
--   * Terminal: the conversions of shared-ui/xterm/components/xterm.socket.channel.ts.
--   * SharedUi.Monaco: the editor component of shared-ui/monaco-editor; editors and subscriptions have
--     numbers, and what is asked of Monaco is a list of calls.
--   * SharedUi.Loading: `loadMonacoLibrary`, once for all editor components of a page.
--   * SharedUi.Xterm: the terminal component of shared-ui/xterm; its style sheet is an input.
--   * Layout: the snack bar and the progress bar of layout/main/website.component.ts.
--   * Pages.Edit.Visit: the life of the edit page, from its mounting to its destruction, with the
--     connection, the message listeners and the channels of the terminals. Histories runs over pages
--     that follow one another.
--   * Pages.Edit.Channels: what a terminal registers with a channel, and how it is taken off
--     (shared-ui/xterm/components/xterm.socket.addon.ts; `terminadoAttach` is in Pages.Edit.Visit).
--   * Pages.Edit.Languages: the language of an edit page, from the dialogs of its header over the room
--     to the store, the editor and the header (pages/codepad/components and the edit page).
--   * Pages.Dashboard.Confirm: the dialog that the dashboard opens for what is to be confirmed, and the
--     two pages that ask for it, over the whole store.
--   * Pages.Dashboard.QuestionPreview: the preview of the selected question.
--   * Pages.Dashboard.SettingsPage: the page of the settings with the store and the effects.
--   * Pages.Dashboard.PadsVisit: a visit to the pads with their filter and table.
--   * Pages.Dashboard.QuestionEditor: the editor of a question with its selector of a language and its
--     two Monaco editors.
--   * Pages.Edit: the synchronisation of edits and cursors in
--     pages/codepad/pages/edit/codepad-edit.component.ts. The Monaco editor is known by the events that
--     it fires for a call, which are a parameter.
--   * Store.Common, Store.Auth, Store.Codepad and Store.Dashboard: the features of the store (store/*),
--     each with its models, actions and reducers, and in Effects the commands that the effects give
--     for an action (`*_effects`) and what an answer of the service becomes (`*_answer`).
--   * Store.Codepad.Connection: the connect and disconnect effects of
--     store/codepad/store/codepad.effect.ts together with `CodepadService` and the sockets. The
--     inputs are what a page dispatches and what the browser does to a socket.
--   * Store.Website: the store as a whole, but for the codepad. An action is reduced, then its effects
--     run; what they dispatch waits in a queue, and what goes out is kept in a trail. Its children
--     follow one history each: Cascade the end of every cascade, Expiry a refused request, Session a
--     login and the page that is opened after it.
--
-- How the code is modelled
--   * A state is a record, an action a constructor with its payload; a reducer that can throw gives
--     `Option`, with `none` for the exception. A TypeError in an effect is the command `crash`.
--   * `undefined` and `null` are `none` where the code does not tell them apart; a field of a record
--     of Immutable that is given as `undefined` takes its default.
--   * Immutable maps from ids are association lists in the order of insertion; ids and times are
--     natural numbers.
--   * A closure that listens to a socket is known by what it is and by the number of the run of the
--     effect that made it. The browser calls the listeners of an event in their order, but for those
--     that were removed meanwhile. A failing connection fires `error` and then `close`.
--   * The conversions of `Date` are parameters; that a time survives them is a hypothesis where it
--     is used.
--   * `Store.Website.process` runs on fuel; two handled actions for each one in the queue are enough
--     (Store.Website.Cascade).
--
-- What is not modelled: the other pages and components, which are forms and views over the store,
-- the loading of the style sheet of xterm, the query texts of GraphQL, the copies of other
-- projects (the split pane, the typings of Monaco, and of the addon of xterm what it does with the
-- terminal itself), the server and the runner,
-- which are in other languages, and the containers.
pub mod Prelude
pub mod Layout
pub mod Models
pub mod Pages
pub mod Service
pub mod SharedUi
pub mod Store
pub mod Terminal
