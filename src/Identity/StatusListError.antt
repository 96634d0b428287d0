-- ===== src/Identity/StatusListError.antt =====
-- The refusals of packages/identity/src/status-list.ts, one for each `throw`; the messages are
-- left out.

pub data StatusListError : Type 0 where
  impossible_length not_base64url trailing_bits length_miscount : StatusListError
  empty_multibase wrong_prefix : StatusListError
  stream_unavailable too_large invalid_gzip : StatusListError
  bit_out_of_range bad_index range_error : StatusListError
  bad_status_size status_size_over_maximum : StatusListError
  message_required message_not_array message_count : StatusListError
  entry_not_object bad_entry_status bad_entry_message : StatusListError
  not_an_object unsupported_purpose purpose_mismatch too_short : StatusListError
  too_few_entries partial_byte set_out_of_range : StatusListError
