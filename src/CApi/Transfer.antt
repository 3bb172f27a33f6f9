-- ===== src/CApi/Transfer.antt =====
-- `dx_upload` and `dx_download` of src/core/dx_c_api.cpp: the checks of the handles and of the range, and
-- the codes of the memory interface in terms of the C interface.
pub mod RoundTrip
use dx_ai_st.Base.{
  ℕ, zero, suc, Bool, true, false, not, Option, none, some, List, ℤ, pos, minus, if◌then◌else◌,
  ◌==◌,
}
use dx_ai_st.Base.Table.{find, assign}
use dx_ai_st.Memory.{Platform, Pool, Allocation, range_valid}
use dx_ai_st.Memory.Transfer.{CopyEnv, Copied, dx_memory_upload, dx_memory_download}
use dx_ai_st.CApi.{
  LastError, cleared, upload_argument, upload_range, upload_unavailable, upload_failed,
  download_argument, download_range, download_unavailable, download_failed, CDevice, CBuffer,
  invalid_argument, unsupported, device_error,
}

-- The status, the device, the text of `dx_last_error` and the caller's bytes after a transfer.
pub record Transferred : Type 0 where
  pub code : ℤ
  pub device : CDevice
  pub error : LastError
  pub bytes : List ℕ

-- The object behind a buffer of this device; the outer `none` is a handle whose object is gone.
pub buffer_object : CDevice → Option ℕ → Option (Option Allocation)
buffer_object device none = some none
buffer_object device (some h) = elim (find h device.memory.allocations) [
  | none ↦ none
  | some a ↦ some (some a)
]

-- dx_memory_size
pub dx_memory_size : Option Allocation → ℕ
dx_memory_size none = 0
dx_memory_size (some a) = a.bytes

-- The device after its object behind the handle is changed.
pub set_object : CDevice → Option ℕ → Allocation → CDevice
set_object device none a = device
set_object device (some h) a = record device {
  memory = record (device.memory) { allocations = assign h a device.memory.allocations };
}

-- The texts of a transfer that fails.
pub record Texts : Type 0 where
  pub range : LastError
  pub unavailable : LastError
  pub failed : LastError

abbrev pub upload_texts : Texts
upload_texts = record {
  range = upload_range;
  unavailable = upload_unavailable;
  failed = upload_failed;
}

abbrev pub download_texts : Texts
download_texts = record {
  range = download_range;
  unavailable = download_unavailable;
  failed = download_failed;
}

pub transfer_result : Texts → ℤ → ℤ × LastError
transfer_result texts (pos zero) = (pos 0, cleared)
transfer_result texts (ℤ.negsuc zero) = (invalid_argument, texts.range)
transfer_result texts (ℤ.negsuc (suc zero)) = (invalid_argument, texts.range)
transfer_result texts (ℤ.negsuc (suc (suc zero))) = (unsupported, texts.unavailable)
transfer_result texts _ = (device_error, texts.failed)

-- `none` is the code -1 of a null pointer.
pub finish_transfer : Texts → CDevice → Option ℕ → List ℕ → Option Copied → Transferred
unfolding transfer_result set_object
finish_transfer texts device handle bytes none = record {
  code = invalid_argument;
  device = device;
  error = texts.range;
  bytes = bytes;
}
finish_transfer texts device handle bytes (some c) =
    let result = transfer_result texts c.code in
    record {
      code = result.0;
      device = set_object device handle c.allocation;
      error = result.1;
      bytes = c.buffer;
    }

pub has_device : Pool → Bool
has_device pool = elim pool.device [ none ↦ false | some d ↦ true ]

pub refuse_transfer : CDevice → LastError → List ℕ → Transferred
refuse_transfer device error bytes = record {
  code = invalid_argument;
  device = device;
  error = error;
  bytes = bytes;
}

-- Null pointers are refused as a foreign buffer is.
unfoldable pub dx_upload :
    Platform → CopyEnv → CDevice → CBuffer → ℕ → List ℕ → ℕ → Option Transferred
unfolding buffer_object dx_memory_size finish_transfer refuse_transfer has_device
dx_upload platform env device destination offset source bytes =
    if not (destination.device == device.address)
    then some (refuse_transfer device upload_argument source)
    else elim (buffer_object device destination.allocation) [
      | none ↦ none
      | some object ↦
          if not (range_valid (dx_memory_size object) offset bytes)
          then some (refuse_transfer device upload_argument source)
          else some (
              finish_transfer upload_texts device destination.allocation source (
                dx_memory_upload platform env (some (has_device device.memory)) object offset
                  (some source) bytes))
    ]

unfoldable pub dx_download :
    Platform → CopyEnv → CDevice → CBuffer → ℕ → List ℕ → ℕ → Option Transferred
unfolding buffer_object dx_memory_size finish_transfer refuse_transfer has_device
dx_download platform env device source offset destination bytes =
    if not (source.device == device.address)
    then some (refuse_transfer device download_argument destination)
    else elim (buffer_object device source.allocation) [
      | none ↦ none
      | some object ↦
          if not (range_valid (dx_memory_size object) offset bytes)
          then some (refuse_transfer device download_argument destination)
          else some (
              finish_transfer download_texts device source.allocation destination (
                dx_memory_download platform env (some (has_device device.memory)) object offset
                  (some destination) bytes))
    ]
