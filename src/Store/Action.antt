-- ===== src/Store/Action.antt =====
-- The actions of the whole store, and the commands that an effect gives when it sees one.
use editor_sh.Prelude.{String, Option}
use editor_sh.Store.Common.{CommonAction}
use editor_sh.Store.Auth.{AuthAction}
use editor_sh.Store.Dashboard.Questions.{QuestionsAction}
use editor_sh.Store.Dashboard.Databases.{DatabasesAction}
use editor_sh.Store.Dashboard.Pads.{PadsAction}
use editor_sh.Store.Dashboard.Settings.{SettingsAction}
use editor_sh.Service.Graphql.{GraphqlCall}
use editor_sh.Service.Api.{Request, UrlPath}

-- The connection of the codepad has a system of its own, and no part in this.
pub data WebsiteAction : Type 0 where
  common : CommonAction → WebsiteAction
  auth : AuthAction → WebsiteAction
  questions : QuestionsAction → WebsiteAction
  databases : DatabasesAction → WebsiteAction
  pads : PadsAction → WebsiteAction
  settings : SettingsAction → WebsiteAction

-- What an effect does: `crash` stands for an exception, which ends the effect.
pub data Command : Type 0 where
  dispatch : WebsiteAction → Command
  save_token : Option String → Command
  destroy_token : Command
  navigate : UrlPath → Command
  location_go : UrlPath → Command
  location_href : String → Command
  graphql : GraphqlCall → Command
  rest : Request → Command
  crash : Command
