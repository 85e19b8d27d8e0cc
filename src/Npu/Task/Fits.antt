-- ===== src/Npu/Task/Fits.antt =====
-- Each command of a task fits the fields of its word, so the words are read back.
use librocket.Prelude.{ℕ, ◌^◌, ◌<◌, ◌≤◌, ◌≡◌, List, [], ◌∷◌, ◌++◌, map, All, arith}
use librocket.Prelude.{length, take, drop, some, ap, ◌∙◌}
use librocket.Npu.Hw.{address, encode}
use librocket.Npu.Hw.Decode.{IsCommand, decode, map-decode-encode}
use librocket.Npu.Desc.{CnaDesc, CoreDesc, DpuDesc}
use librocket.Npu.Values.Cna.{
  conv_con1, conv_con2, conv_con3, data_size0, data_size1, data_size2, data_size3, weight_size0,
  weight_size1, weight_size2, cbuf_con0, cbuf_con1, cvt_con0, cvt_con1, cvt_con2, cvt_con3,
  cvt_con4, fc_con0, fc_con1, pad_con0, fc_con2, dma_con0, dma_con1, dma_con2, fc_data_size0,
  fc_data_size1, cna_commands,
}
use librocket.Npu.Values.Core.{misc_cfg, dataout_size_0, dataout_size_1, core_commands}
use librocket.Npu.Values.Dpu.{
  feature_mode_cfg, data_format, dst_surf_stride, data_cube_width, data_cube_height,
  data_cube_channel, bs_cfg, bs_ow_cfg, wdma_size_0, wdma_size_1, bn_cfg, ew_cfg, out_cvt_scale,
  surface_add, dpu_commands,
}
use librocket.Npu.Task.{pc_commands, task_commands, gen_matmul_task}
use librocket.Npu.Task.Store.{gen_matmul_task_stores, take_task}

All-append {ℓ κ} :
    {A : Type ℓ} (P : A → Type κ) (xs ys : List A) → All P xs → All P ys → All P (xs ++ ys)
All-append P [] ys h k = k
All-append P (x ∷ xs) ys (h, hs) k = (h, All-append P xs ys hs k)

cna_commands_fit :
    (d : CnaDesc)
    → d.feature_base_addr < 2 ^ 32
    → d.decompress_addr0 < 2 ^ 32
    → All IsCommand (cna_commands d)
unfolding cna_commands address conv_con1 conv_con2 conv_con3 data_size0 data_size1 data_size2
    data_size3 weight_size0 weight_size1 weight_size2 cbuf_con0 cbuf_con1 cvt_con0 cvt_con1 cvt_con2
    cvt_con3 cvt_con4 fc_con0 fc_con1 pad_con0 fc_con2 dma_con0 dma_con1 dma_con2 fc_data_size0
    fc_data_size1
cna_commands_fit d h k = omega arith

core_commands_fit : (d : CoreDesc) → All IsCommand (core_commands d)
unfolding core_commands address misc_cfg dataout_size_0 dataout_size_1
core_commands_fit d = omega arith

dpu_commands_fit : (d : DpuDesc) → d.dst_base_addr < 2 ^ 32 → All IsCommand (dpu_commands d)
unfolding dpu_commands address feature_mode_cfg data_format dst_surf_stride data_cube_width
    data_cube_height data_cube_channel bs_cfg bs_ow_cfg wdma_size_0 wdma_size_1 bn_cfg ew_cfg
    out_cvt_scale surface_add
dpu_commands_fit d h = omega arith

pc_commands_fit : All IsCommand pc_commands
unfolding pc_commands address
pc_commands_fit = omega arith

-- The addresses in the descriptors are uint32_t values.
pub record IsAddressed (cna : CnaDesc) (dpu : DpuDesc) : Type 0 where
  pub input : cna.feature_base_addr < 2 ^ 32
  pub weights : cna.decompress_addr0 < 2 ^ 32
  pub output : dpu.dst_base_addr < 2 ^ 32

pub task_commands_fit :
    (cna : CnaDesc) (core : CoreDesc) (dpu : DpuDesc)
    → IsAddressed cna dpu
    → All IsCommand (task_commands cna core dpu)
unfolding task_commands address
task_commands_fit cna core dpu h = (
  omega arith,
  All-append IsCommand (cna_commands cna) _ (cna_commands_fit cna h.input h.weights) (
      All-append IsCommand (core_commands core) _ (core_commands_fit core) (
        All-append IsCommand (dpu_commands dpu) _ (dpu_commands_fit dpu h.output) pc_commands_fit)),
)

-- For descriptors whose addresses fit 32 bits and a buffer of at least 108 words, the task
-- generator returns, and the first 108 words that it leaves in the buffer decode to the operations,
-- values and registers that it was to write, in order.
pub gen_matmul_task_decodes :
    (tasks : List ℕ) (cna : CnaDesc) (core : CoreDesc) (dpu : DpuDesc)
    → IsAddressed cna dpu
    → 108 ≤ length tasks
    → (out : List ℕ) × (gen_matmul_task tasks cna core dpu ≡ some out)
      × (map decode (take 108 out) ≡ task_commands cna core dpu)
gen_matmul_task_decodes tasks cna core dpu h room =
    let stored = gen_matmul_task_stores tasks cna core dpu room in
    (
      map encode (task_commands cna core dpu) ++ drop 108 tasks,
      stored,
      ap (map decode) (take_task tasks _ cna core dpu room stored)
          ∙ map-decode-encode (task_commands cna core dpu) (task_commands_fit cna core dpu h),
    )
