-- ===== src/Common/StateCode.antt =====
-- `E_StateCode` of common/defs.h.
pub data StateCode : Type 0 where
  no_error init_failure invalid_handle unable_to_open_file config_error : StateCode
  allocation_failure free_memory_failure socket_create_failure socket_close_failure : StateCode
  socket_bind_failure failed_to_proceed_command invalid_command invalid_param time_out : StateCode
  object_existed object_not_exist object_beyond object_busy wait_more_data : StateCode
  authorization_failed object_locked user_not_found stream_not_found object_not_support : StateCode
  undefined_error : StateCode
