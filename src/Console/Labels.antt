-- ===== src/Console/Labels.antt =====
-- frontend/src/App.tsx: `statusLabel`, `stateVariant`, `connectionTone`, and `TargetRow`.
use codex_queue_bot.Base.{
  Bool, true, false, not, ◌||◌, List, [], ◌∷◌, Text, codes, text_eq, if◌then◌else◌, leb, any,
}
use codex_queue_bot.Console.Api.Types.{Target, QueueState, KeepaliveState, running}

abbrev labels : List (Text × Text)
labels =
    (codes "idle", codes "未启动")
    ∷ (codes "running", codes "排队中")
    ∷ (codes "succeeded", codes "已成功")
    ∷ (codes "stopped", codes "已停止")
    ∷ (codes "requesting", codes "请求中")
    ∷ (codes "waiting_queue", codes "等待排队")
    ∷ (codes "waiting_next", codes "等待下次")
    ∷ (codes "disabled", codes "未启用")
    ∷ (codes "connecting", codes "连接中")
    ∷ (codes "connected", codes "已连接")
    ∷ (codes "reconnecting", codes "重连中")
    ∷ (codes "unauthorized", codes "鉴权失败")
    ∷ (codes "closed", codes "已断开")
    ∷ []

label_in : List (Text × Text) → Text → Text
label_in [] state = state
label_in ((key, label) ∷ rest) state = if text_eq key state then label else label_in rest state

-- A state with no label of its own is shown as it is.
pub status_label : Text → Text
unfolding label_in
status_label state = label_in labels state

pub data Variant : Type 0 where
  default secondary outline destructive : Variant

abbrev is_one_of : List Text → Text → Bool
is_one_of names state = any (λ name. text_eq name state) names

pub state_variant : Text → Variant
state_variant state =
    if is_one_of (codes "running" ∷ codes "requesting" ∷ codes "connected" ∷ []) state
    then default
    else if text_eq state (codes "succeeded")
    then secondary
    else if text_eq state (codes "unauthorized")
    then destructive
    else outline

pub data Connection : Type 0 where
  connecting connected reconnecting closed : Connection

pub data Tone : Type 0 where
  healthy offline warning : Tone

pub connection_tone : Connection → Tone
connection_tone connected = healthy
connection_tone closed = offline
connection_tone _ = warning

abbrev queue_running : QueueState → Bool
queue_running running = true
queue_running _ = false

abbrev keepalive_stopped : KeepaliveState → Bool
keepalive_stopped KeepaliveState.stopped = true
keepalive_stopped _ = false

-- `active` in `TargetRow`
unfoldable pub row_active : Target → Bool
row_active target =
    queue_running target.queue.state
    || not (keepalive_stopped target.keepalive.state)
    || target.adhoc_running

-- The buttons of a row, and which of them are disabled.
pub data RowButton : Type 0 where
  start_queue start_keepalive open_adhoc stop_task : RowButton

unfoldable pub row_disabled : Target → RowButton → Bool
unfolding row_active
row_disabled target start_queue = target.adhoc_running
row_disabled target start_keepalive = target.adhoc_running
row_disabled target open_adhoc = target.busy || leb target.id 0
row_disabled target stop_task = not (row_active target)
