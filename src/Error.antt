-- ===== src/Error.antt =====
-- src/libmonga/include/mon_error.h: the codes that the library's calls return.

pub data RetCode : Type 0 where
  success : RetCode
  err_nomem : RetCode
  err_filenotfound : RetCode
  err_syntax : RetCode
  err_semantic : RetCode
  err_bad_arg : RetCode
  err_empty_collection : RetCode
  err_io : RetCode
  err_duplicate : RetCode
  err_builtin : RetCode
