-- ===== src/Base/Codes.antt =====
-- The status codes of include/bio_common.h that the modelled code returns.

-- `bio_error_t`: `BIO_OK` and the codes `BIO_ERR_…`.
pub data Status : Type 0 where
  ok nomem invalid_param not_found : Status
  cbor_overflow cbor_invalid cbor_unexpected_type cbor_nesting : Status
