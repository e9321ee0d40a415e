-- ===== src/Fs/Requests.antt =====
-- kernel/fs/vfs.c and vfs_async.c: the requests that the virtual file system hands to a driver.
-- The buffer of a request is the list of the bytes from there on, and the semaphore that it names is
-- its own, so the request holds its count. A driver is its `async_request`, which may finish the
-- request at once or keep it; `S` is its state.
use pi_os.Common.{ℕ, ◌%◌, Option, none, some, List, ◌==◌, if◌then◌else◌}
use pi_os.Common.Word.{add16, neg16, is_neg16}
use pi_os.Libk.Semaphore.{semaphore_init, semaphore_up, semaphore_down, Down, panics, sleeps, takes}
use pi_os.Fs.{Inode, ProcFile, ebadfd, enosup}

abbrev pub vfs_async_type_read : ℕ
vfs_async_type_read = 1

abbrev pub vfs_async_type_write : ℕ
vfs_async_type_write = 2

abbrev pub vfs_async_flag_want_wouldblock : ℕ
vfs_async_flag_want_wouldblock = 1

-- `struct vfs_async_req_t`
pub record Request : Type 0 where
  pub req_id : ℕ
  pub file : ProcFile
  pub kind : ℕ
  pub pid : ℕ
  pub vbuff : List ℕ
  pub size : ℕ
  pub callback : Option ℕ
  pub fin_sema : Option ℕ
  pub res : ℕ
  pub flags : ℕ

abbrev pub up_if_set : Option ℕ → Option ℕ
up_if_set none = none
up_if_set (some count) = some (semaphore_up count)

-- The finished request, and the callback that is called on it.
unfoldable pub vfs_async_finalize : Request → ℕ → Request × Option ℕ
vfs_async_finalize req ret =
    (record req { res = ret; fin_sema = up_if_set req.fin_sema }, req.callback)

-- `req->flags`; `O_NONBLOCK` is the lowest bit.
abbrev pub request_flags : ProcFile → ℕ
request_flags file = if file.fcntl_flags % 2 == 1 then vfs_async_flag_want_wouldblock else 0

-- The request that a blocking call fills in; `junk` is what `res` holds before.
unfoldable pub blocking_request :
    (kind req_id junk : ℕ) → ProcFile → (pid : ℕ) → (buff : List ℕ) → (size : ℕ) → Request
blocking_request kind req_id junk file pid buff size = record {
  req_id = req_id;
  file = file;
  kind = kind;
  pid = pid;
  vbuff = buff;
  size = size;
  callback = none;
  fin_sema = some semaphore_init;
  res = junk;
  flags = request_flags file;
}

unfoldable pub async_request :
    (kind req_id junk : ℕ) → ProcFile → (pid : ℕ) → (buff : List ℕ) → (size callback : ℕ) → Request
async_request kind req_id junk file pid buff size callback = record {
  req_id = req_id;
  file = file;
  kind = kind;
  pid = pid;
  vbuff = buff;
  size = size;
  callback = if callback == 0 then none else some callback;
  fin_sema = none;
  res = junk;
  flags = request_flags file;
}

module _ (S : Type 0) where
  -- How a call of a driver's `async_request` ends: with its code and the request as it then is, or
  -- asleep on a semaphore of the driver.
  pub data Submitted : Type 0 where
    accepts : ℕ → Request → S → Submitted
    asserts : Submitted
    sleeps_inside : Submitted

  abbrev pub Submit : Type 0
  Submit = Request → S → Submitted

  -- How a call goes on: it returns, with the bytes at its buffer, or it sleeps until the driver
  -- finishes the request.
  pub data CallResult : Type 0 where
    returns : ℕ → List ℕ → S → CallResult
    sleeps_on : Request → S → CallResult
    sleeps_in_driver : CallResult
    fails : CallResult

  -- `semaphore_down(lock)` and what follows it
  abbrev pub finish : Request → S → Down → CallResult
  finish req s panics = fails
  finish req s sleeps = sleeps_on req s
  finish req s (takes left) = returns req.res req.vbuff s

  abbrev pub await : Request → S → Option ℕ → CallResult
  await req s none = fails
  await req s (some count) = finish req s (semaphore_down count)

  abbrev pub submitted : Submitted → CallResult
  submitted (accepts rc req s) =
      if is_neg16 rc then returns rc req.vbuff s else await req s req.fin_sema
  submitted asserts = fails
  submitted sleeps_inside = sleeps_in_driver

  -- The tests of the inode and of the driver; `last_id` is `req_id` before the call, and the first
  -- result is `req_id` after it.
  abbrev pub call_driver :
      Option Inode → Option Submit → (last_id : ℕ) → Request → S → ℕ × CallResult
  call_driver none driver last_id req s = (last_id, returns (neg16 ebadfd) req.vbuff s)
  call_driver (some inode) none last_id req s = (last_id, returns (neg16 enosup) req.vbuff s)
  call_driver (some inode) (some submit) last_id req s = (req.req_id, submitted (submit req s))

  unfoldable pub vfs_read_blocking :
      Option Submit
      → (last_id junk : ℕ) → ProcFile
      → (pid : ℕ) → List ℕ
      → (size : ℕ) → S
      → ℕ × CallResult
  vfs_read_blocking driver last_id junk file pid buff size s =
      call_driver file.inode driver last_id
        (blocking_request vfs_async_type_read (add16 last_id 1) junk file pid buff size) s

  unfoldable pub vfs_write_blocking :
      Option Submit
      → (last_id junk : ℕ) → ProcFile
      → (pid : ℕ) → List ℕ
      → (size : ℕ) → S
      → ℕ × CallResult
  vfs_write_blocking driver last_id junk file pid buff size s =
      call_driver file.inode driver last_id
        (blocking_request vfs_async_type_write (add16 last_id 1) junk file pid buff size) s

  -- An asynchronous call returns the id of the request, or the driver's error, and does not wait.
  abbrev pub async_submitted : (id : ℕ) → Submitted → CallResult
  async_submitted id (accepts rc req s) = returns (if is_neg16 rc then rc else id) req.vbuff s
  async_submitted id asserts = fails
  async_submitted id sleeps_inside = sleeps_in_driver

  -- `rid ? rid : ++req_id`: the id, and `req_id` after it
  abbrev pub chosen_id : (last_id rid : ℕ) → ℕ × ℕ
  chosen_id last_id rid = if rid == 0 then (add16 last_id 1, add16 last_id 1) else (rid, last_id)

  abbrev pub call_async :
      Option Inode → Option Submit → (last_id next_id : ℕ) → Request → S → ℕ × CallResult
  call_async none driver last_id next_id req s = (last_id, returns (neg16 ebadfd) req.vbuff s)
  call_async (some inode) none last_id next_id req s = (last_id, returns (neg16 enosup) req.vbuff s)
  call_async (some inode) (some submit) last_id next_id req s =
      (next_id, async_submitted req.req_id (submit req s))

  unfoldable pub vfs_read_async :
      Option Submit
      → (last_id junk : ℕ) → ProcFile
      → (pid : ℕ) → List ℕ
      → (size callback rid : ℕ) → S
      → ℕ × CallResult
  vfs_read_async driver last_id junk file pid buff size callback rid s =
      let (id, next_id) = chosen_id last_id rid in
      call_async file.inode driver last_id next_id
        (async_request vfs_async_type_read id junk file pid buff size callback) s

  unfoldable pub vfs_write_async :
      Option Submit
      → (last_id junk : ℕ) → ProcFile
      → (pid : ℕ) → List ℕ
      → (size callback rid : ℕ) → S
      → ℕ × CallResult
  vfs_write_async driver last_id junk file pid buff size callback rid s =
      let (id, next_id) = chosen_id last_id rid in
      call_async file.inode driver last_id next_id
        (async_request vfs_async_type_write id junk file pid buff size callback) s
