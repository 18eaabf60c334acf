-- ===== src/Link/Errors.antt =====
-- tools/nanoql_link.py: the texts of the firmware's and FatFs' error codes, and of the stages of
-- Flash programming.
use nano_ql.Base.{ℕ, bit_and, String, Option, none, some, List, [], ◌∷◌, ◌==◌, if◌then◌else◌}
use nano_ql.Link.Session.{is_fatfs_code}

-- `FIRMWARE_ERRORS`
unfoldable pub firmware_errors : List (ℕ × String)
firmware_errors =
    (1, "unsupported protocol version")
    ∷ (2, "invalid request CRC")
    ∷ (3, "invalid request length")
    ∷ (4, "invalid FPGA bitstream size")
    ∷ (5, "unable to initialize FPGA JTAG programming")
    ∷ (6, "FPGA transfer is not initialized or has an inconsistent length")
    ∷ (7, "direct FPGA transfer failed")
    ∷ (8, "invalid FPGA bitstream size or CRC")
    ∷ (9, "FPGA JTAG programming failed")
    ∷ (10, "FPGA configuration Flash was not detected or is protected")
    ∷ (11, "FPGA configuration Flash erase, write, or verification failed")
    ∷ (12, "FPGA configuration Flash finalization failed")
    ∷ (20, "microSD filesystem is not ready")
    ∷ (21, "invalid Drive1 path")
    ∷ (22, "another microSD file operation is active")
    ∷ (23, "microSD I/O error")
    ∷ (24, "uploaded file failed size or CRC verification")
    ∷ (25, "file or directory not found in Drive1")
    ∷ (26, "file or directory already exists")
    ∷ (27, "Drive1 filename is too long")
    ∷ (28, "microSD is write-protected")
    ∷ (29, "microSD operation was denied")
    ∷ []

-- `FATFS_ERRORS`
unfoldable pub fatfs_errors : List (ℕ × String)
fatfs_errors =
    (1, "FR_DISK_ERR")
    ∷ (2, "FR_INT_ERR")
    ∷ (3, "FR_NOT_READY")
    ∷ (4, "FR_NO_FILE")
    ∷ (5, "FR_NO_PATH")
    ∷ (6, "FR_INVALID_NAME")
    ∷ (7, "FR_DENIED")
    ∷ (8, "FR_EXIST")
    ∷ (9, "FR_INVALID_OBJECT")
    ∷ (10, "FR_WRITE_PROTECTED")
    ∷ (11, "FR_INVALID_DRIVE")
    ∷ (12, "FR_NOT_ENABLED")
    ∷ (13, "FR_NO_FILESYSTEM")
    ∷ (14, "FR_MKFS_ABORTED")
    ∷ (15, "FR_TIMEOUT")
    ∷ (16, "FR_LOCKED")
    ∷ (17, "FR_NOT_ENOUGH_CORE")
    ∷ (18, "FR_TOO_MANY_OPEN_FILES")
    ∷ (19, "FR_INVALID_PARAMETER")
    ∷ []

-- `FPGA_FLASH_STAGES`
unfoldable pub fpga_flash_stages : List (ℕ × String)
fpga_flash_stages =
    (0, "no recorded failure")
    ∷ (1, "write-enable command")
    ∷ (2, "write-enable status")
    ∷ (3, "64-KiB block-erase command")
    ∷ (4, "64-KiB block-erase completion")
    ∷ (5, "64-KiB block-erase verification")
    ∷ (6, "page-program command")
    ∷ (7, "page-program completion")
    ∷ (8, "Flash readback command")
    ∷ (9, "page readback verification")
    ∷ (10, "write-disable command")
    ∷ (11, "write-disable status")
    ∷ (12, "JEDEC identification")
    ∷ []

abbrev pub text_of : ℕ → List (ℕ × String) → Option String
text_of code [] = none
text_of code ((k, text) ∷ rest) = if k == code then some text else text_of code rest

-- `detail` of `transact`: the text for the code of an error reply, `none` where the source prints
-- the number.
unfoldable pub rejection_detail : ℕ → Option String
unfolding firmware_errors fatfs_errors is_fatfs_code
rejection_detail code =
    if is_fatfs_code code
    then text_of (bit_and code 0x1F) fatfs_errors
    else text_of code firmware_errors
