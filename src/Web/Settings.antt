-- ===== src/Web/Settings.antt =====
-- state/slices/application.ts and account.ts. The action of an alert, a function, is left out.
use lilnouns_monorepo.Base.{str_eq, Bool, true, false, Option, none, String}

pub record AlertModal : Type 0 where
  pub show : Bool
  pub title : Option String
  pub message : Option String
  pub is_milestone : Option Bool
  pub is_action_prompt : Option Bool
  pub action_message : Option String

pub record ApplicationState : Type 0 where
  pub state_background_color : String
  pub is_cool_background : Bool
  pub alert_modal : AlertModal

-- `grey` is a constant of another module.
unfoldable pub initial_application : String → ApplicationState
initial_application grey = record {
  state_background_color = grey;
  is_cool_background = true;
  alert_modal = record {
    show = false;
    title = none;
    message = none;
    is_milestone = none;
    is_action_prompt = none;
    action_message = none;
  };
}

unfoldable pub set_state_background_color : String → String → ApplicationState → ApplicationState
set_state_background_color grey color state = record state {
  state_background_color = color;
  is_cool_background = str_eq color grey;
}

unfoldable pub set_alert_modal : AlertModal → ApplicationState → ApplicationState
set_alert_modal alert state = record state { alert_modal = alert }

pub record AccountState : Type 0 where
  pub active_account : Option String

-- `null` and `undefined` are both none.
unfoldable pub set_active_account : Option String → AccountState → AccountState
set_active_account account state = record state { active_account = account }
