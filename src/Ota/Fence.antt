-- ===== src/Ota/Fence.antt =====
-- The fence between a transport abort and the commit of a boot slot:
-- firmware/components/ota_service/deck_ota_transport_fence.h and .cpp. Epoch and state share one
-- atomic uint32_t; `(epoch << 2) | state` is written as a sum, since the state takes the two bits
-- that the shift leaves zero. Each method is the change that its compare-and-exchange makes.
pub mod Loops
pub mod Safety
mod Examples
use s3_rlcd_deck.Base.{
  ℕ, ◌+◌, ◌-◌, ◌*◌, ◌/◌, ◌%◌, ◌^◌, Bool, true, false, ◌==◌, ◌!=◌, if◌then◌else◌,
}

pub data State : Type 0 where
  idle active committing aborting : State

abbrev pub state_code : State → ℕ
state_code idle = 0
state_code active = 1
state_code committing = 2
state_code aborting = 3

-- UINT32_MAX >> 2.
abbrev pub maximum_epoch : ℕ
maximum_epoch = 2 ^ 30 - 1

abbrev pub encode : ℕ → State → ℕ
encode epoch state = epoch * 4 % 2 ^ 32 + state_code state

abbrev pub epoch_of : ℕ → ℕ
epoch_of word = word / 4

-- `static_cast<State>(word & 3)`.
unfoldable pub state_of : ℕ → State
state_of word =
    if word % 4 == 0
    then idle
    else if word % 4 == 1
    then active
    else if word % 4 == 2
    then committing
    else aborting

abbrev pub is_idle : State → Bool
is_idle idle = true
is_idle _ = false

abbrev pub is_active : State → Bool
is_active active = true
is_active _ = false

abbrev pub is_committing : State → Bool
is_committing committing = true
is_committing _ = false

abbrev pub initial_word : ℕ
initial_word = encode 1 idle

unfoldable pub capture_epoch : ℕ → ℕ
capture_epoch word = epoch_of word

unfoldable pub accepts : ℕ → ℕ → Bool
unfolding capture_epoch
accepts word command_epoch = command_epoch == capture_epoch word

unfoldable pub begin_transaction : ℕ → ℕ → ℕ × Bool
unfolding state_of
begin_transaction word command_epoch =
    if epoch_of word != command_epoch
    then (word, false)
    else if is_idle (state_of word)
    then (encode command_epoch active, true)
    else (word, false)

unfoldable pub try_begin_commit : ℕ → ℕ × Bool
unfolding state_of
try_begin_commit word =
    if is_active (state_of word) then (encode (epoch_of word) committing, true) else (word, false)

unfoldable pub finish_commit : ℕ → ℕ
unfolding state_of
finish_commit word = if is_committing (state_of word) then encode (epoch_of word) idle else word

abbrev pub next_epoch : ℕ → ℕ
next_epoch epoch = if epoch == maximum_epoch then 1 else epoch + 1

unfoldable pub begin_abort : ℕ → ℕ
unfolding state_of
begin_abort word =
    encode (next_epoch (epoch_of word))
      (if is_committing (state_of word) then committing else aborting)

unfoldable pub finish_abort : ℕ → ℕ
unfolding state_of
finish_abort word = if is_idle (state_of word) then word else encode (epoch_of word) idle

unfoldable pub end_transaction : ℕ → ℕ
unfolding state_of
end_transaction word = if is_active (state_of word) then encode (epoch_of word) idle else word
