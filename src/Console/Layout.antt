-- ===== src/Console/Layout.antt =====
-- frontend/src/App.tsx: `RestartBanner`, `ConsoleSidebar`, `ConsoleHeader` and `AuthenticatedApp`, less their
-- markup.
use codex_queue_bot.Base.{
  ◌≡◌, refl, Bool, true, false, List, [], ◌∷◌, ◌++◌, map, Option, none, some, Text, codes, is_empty,
  keep, if◌then◌else◌,
}

abbrev join_names : List Text → Text
join_names [] = []
join_names (name ∷ []) = name
join_names (name ∷ names) = name ++ (codes "、" ++ join_names names)

-- `RestartBanner`: its text, if it is shown.
unfoldable pub restart_banner : List Text → Option Text
restart_banner fields =
    if is_empty fields then none else some (codes "部分配置等待服务重启后生效" ++ join_names fields)

pub data View : Type 0 where
  dashboard config : View

abbrev same_view : View → View → Bool
same_view dashboard dashboard = true
same_view config config = true
same_view _ _ = false

-- A button of the navigation: its label, the view that a click on it sets, and whether it is marked as
-- the page that is shown.
pub record NavigationButton : Type 0 where
  pub label : Text
  pub opens : View
  pub current : Bool

-- `ConsoleSidebar`
unfoldable pub sidebar : View → List NavigationButton
sidebar view =
    record { label = codes "运行状态"; opens = dashboard; current = same_view view dashboard }
    ∷ record { label = codes "配置"; opens = config; current = same_view view config }
    ∷ []

-- `ConsoleHeader`: the name of the section, the heading, and what stands below it.
unfoldable pub header : View → Text × (Text × Text)
header dashboard = (codes "MONITOR", (codes "运行控制台", codes "实时监控任务、连接与目标状态"))
header config = (codes "SETTINGS", (codes "配置管理", codes "管理运行参数、消息入口与管理员账号"))

pub data ConsolePage : Type 0 where
  dashboard_page configuration_page : ConsolePage

-- `AuthenticatedApp`: the view at first, and the page that is shown.
abbrev pub initial_view : View
initial_view = dashboard

unfoldable pub shown_page : View → ConsolePage
shown_page dashboard = dashboard_page
shown_page config = configuration_page

-- After a click on any button of the navigation, that button alone is marked.
clicked-current :
    (view : View)
    → map
        (λ (button : NavigationButton).
          keep (λ (other : NavigationButton). other.current) (sidebar button.opens))
        (sidebar view)
      ≡ (record { label = codes "运行状态"; opens = dashboard; current = true } ∷ [])
        ∷ (record { label = codes "配置"; opens = config; current = true } ∷ [])
        ∷ []
unfolding sidebar
clicked-current view = refl
